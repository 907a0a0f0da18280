-- ===== src/FilePath.antt =====
-- What capability/src/lib.rs and manifest/src/lib.rs use of `std::path` (Unix): a path is its text,
-- and its components decide everything but what the file system answers.
pub mod Components
use attenuate_agent.Prelude.{
  ℕ, Bool, true, false, Option, none, some, List, [], ◌∷◌, ◌++◌, Text, text_eq, ◌==◌, if◌then◌else◌,
  ◌&&◌, reverse, map,
}

-- `std::path::Component`, without the Windows prefixes.
pub data Component : Type 0 where
  root_dir : Component
  cur_dir : Component
  parent_dir : Component
  normal : Text → Component

-- The text between slashes: `seg` is the segment being read.
unfoldable pub segments : Text → Text → List Text
segments seg [] = seg ∷ []
segments seg (c ∷ s) = if c == b'/' then seg ∷ segments [] s else segments (seg ++ c ∷ []) s

-- A segment inside a path: empty ones and `.` are skipped.
unfoldable pub segment_components : Text → List Component
segment_components [] = []
segment_components (c ∷ s) =
    if text_eq (c ∷ s) (b'.' ∷ [])
    then []
    else if text_eq (c ∷ s) (b'.' ∷ b'.' ∷ [])
    then parent_dir ∷ []
    else normal (c ∷ s) ∷ []

unfoldable pub all_components : List Text → List Component
all_components [] = []
all_components (seg ∷ segs) = segment_components seg ++ all_components segs

-- A leading `.` of a relative path is kept.
unfoldable pub relative_components : List Text → List Component
relative_components [] = []
relative_components (seg ∷ segs) =
    if text_eq seg (b'.' ∷ []) then cur_dir ∷ all_components segs else all_components (seg ∷ segs)

-- `Path::is_absolute`
unfoldable pub is_absolute : Text → Bool
is_absolute [] = false
is_absolute (c ∷ s) = c == b'/'

-- `Path::components`
unfoldable pub components : Text → List Component
unfolding segments segment_components all_components relative_components is_absolute
components path =
    if is_absolute path
    then root_dir ∷ all_components (segments [] path)
    else relative_components (segments [] path)

unfoldable pub component_eq : Component → Component → Bool
component_eq root_dir root_dir = true
component_eq cur_dir cur_dir = true
component_eq parent_dir parent_dir = true
component_eq (normal a) (normal b) = text_eq a b
component_eq _ _ = false

-- The second list of components begins the first.
unfoldable pub begins : List Component → List Component → Bool
begins cs [] = true
begins [] (d ∷ ds) = false
begins (c ∷ cs) (d ∷ ds) = component_eq c d && begins cs ds

-- `Path::starts_with`
unfoldable pub starts_with : Text → Text → Bool
unfolding components begins component_eq
starts_with path base = begins (components path) (components base)

-- `==` on paths compares components.
unfoldable pub path_eq : Text → Text → Bool
unfolding components begins component_eq
path_eq a b = begins (components a) (components b) && begins (components b) (components a)

-- `Component::as_os_str`
abbrev pub component_text : Component → Text
component_text root_dir = b'/' ∷ []
component_text cur_dir = b'.' ∷ []
component_text parent_dir = b'.' ∷ b'.' ∷ []
component_text (normal name) = name

unfoldable pub ends_with_slash : Text → Bool
ends_with_slash [] = false
ends_with_slash (c ∷ []) = c == b'/'
ends_with_slash (c ∷ d ∷ s) = ends_with_slash (d ∷ s)

-- `PathBuf::push`: an absolute path replaces, and a slash is put in where one is needed.
unfoldable pub push : Text → Text → Text
unfolding is_absolute ends_with_slash
push base part = if is_absolute part then part else elim base [
  | [] ↦ part
  | c ∷ s ↦ if ends_with_slash (c ∷ s) then (c ∷ s) ++ part else (c ∷ s) ++ (b'/' ∷ part)
]

unfoldable pub push_all : Text → List Component → Text
unfolding push
push_all base [] = base
push_all base (c ∷ cs) = push_all (push base (component_text c)) cs

-- `components().collect::<PathBuf>()`
unfoldable pub collect : List Component → Text
unfolding push_all
collect cs = push_all [] cs
