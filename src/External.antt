-- ===== src/External.antt =====
-- What the crates call and do not implement: the file system, chrono, uuid, blake3 and biscuit-auth.
-- Each is a record of functions; what is assumed of one is a record of its documented behaviour.
pub mod Json
pub mod Http
use attenuate_agent.Prelude.{ℕ, Bool, Option, List, Text, Result}
use attenuate_agent.Prelude.Int.{ℤ}

-- `Path::exists` and `Path::canonicalize`, at one moment.
pub record FileSystem : Type 0 where
  pub exists : Text → Bool
  pub canonicalize : Text → Option Text

-- A `DateTime<Utc>` is a number on chrono's time line: its nanoseconds since the earliest instant.
abbrev pub DateTime : Type 0
DateTime = ℕ

-- A `Duration` of whole seconds, and the operations on instants.
pub record Chrono : Type 0 where
  -- `Duration::seconds`; `none` where it panics
  pub seconds : ℕ → Option ℕ
  pub checked_add_signed : DateTime → ℕ → Option DateTime
  pub to_rfc3339 : DateTime → Text
  pub parse_from_rfc3339 : Text → Option DateTime
  -- `timestamp().to_be_bytes()` and `timestamp_subsec_nanos().to_be_bytes()`
  pub timestamp : DateTime → Text
  pub subsec_nanos : DateTime → Text

-- A `Uuid` is its sixteen bytes.
abbrev pub Uuid : Type 0
Uuid = Text

pub record UuidText : Type 0 where
  pub to_string : Uuid → Text
  pub parse_str : Text → Option Uuid

-- A datalog fact of a token: `task_id("…")`, or a predicate of a block id and a text.
pub data Fact : Type 0 where
  unary : Text → Text → Fact
  binary : Text → ℤ → Text → Fact

-- The source text of a fact, `predicate("literal")` or `predicate(id, "literal")`, in its parts.
pub record FactSource : Type 0 where
  pub predicate : Text
  pub block_id : Option ℤ
  pub literal : Text

pub record BiscuitAuth : Type 1 where
  pub KeyPair : Type 0
  pub PublicKey : Type 0
  pub Biscuit : Type 0
  pub Authorizer : Type 0
  pub public : KeyPair → PublicKey
  pub to_bytes : PublicKey → Text
  pub from_bytes : Text → Result Text PublicKey
  -- the parsing that `add_fact` does
  pub parse_fact : FactSource → Result Text Fact
  pub build : List Fact → KeyPair → Result Text Biscuit
  pub append : Biscuit → List Fact → Result Text Biscuit
  pub to_vec : Biscuit → Result Text Text
  -- `Biscuit::from`: parses the bytes and verifies the signature chain
  pub from : Text → PublicKey → Result Text Biscuit
  pub authorizer : Biscuit → Result Text Authorizer
  -- `set_limits` with `max_time` in seconds
  pub set_limits : ℕ → Authorizer → Authorizer
  -- `query_all("data($id) <- p($id)")` and `query_all("data($id, $val) <- p($id, $val)")`
  pub query_unary : Authorizer → Text → Result Text (List Text)
  pub query_binary : Authorizer → Text → Result Text (List (ℤ × Text))

-- `std::process::Output`
pub record Output : Type 0 where
  pub status : Option ℤ
  pub stdout : Text
  pub stderr : Text

-- The machine that the program runs on: its state, the clock and the random numbers, the calls that
-- act on it. An operation that fails may still have changed the state.
pub record System : Type 1 where
  pub World : Type 0
  pub Stream : Type 0
  pub files : World → FileSystem
  -- `Utc::now()`, `Uuid::new_v4()`
  pub now : World → DateTime × World
  pub new_v4 : World → Uuid × World
  -- `fs::read_to_string`, `fs::write`
  pub read_to_string : Text → World → Result Text Text × World
  pub write : Text → Text → World → Result Text (Unit {0}) × World
  -- `Command::new(binary).args(args).output()`
  pub output : Text → List Text → World → Result Text Output × World
  pub from_utf8_lossy : Text → Text
  -- `TcpStream::connect((host, port))`, `write_all`
  pub connect : Text → ℕ → World → Result Text Stream × World
  pub write_all : Stream → Text → World → Result Text (Unit {0}) × World
