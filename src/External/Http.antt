-- ===== src/External/Http.antt =====
-- reqwest's blocking client, for requests with a JSON body of type `Body` and answers of type `Answer`.
use attenuate_agent.Prelude.{ℕ, Bool, List, Text, Result}
use attenuate_agent.Prelude.Runs.{Run}

pub record Http (Body Answer : Type 0) : Type 1 where
  pub Client : Type 0
  pub Response : Type 0
  -- what answers the requests, wherever it is; the connections of the network tool are not here
  -- but calls of the machine
  pub Server : Type 0
  -- `Client::builder().timeout(..).build()`, with the timeout in seconds
  pub build : ℕ → Result Text Client
  -- `client.post(url).header(..).json(&body).send()`
  pub send : Client → Text → List (Text × Text) → Body → Run Server Text Response
  -- `status()` and `is_success()`
  pub status : Response → Text
  pub is_success : Response → Bool
  -- `resp.text()` and `resp.json()`
  pub read_text : Response → Run Server Text Text
  pub read_json : Response → Run Server Text Answer
