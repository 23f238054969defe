-- ===== src/Controllers.antt =====
-- internal/controller: the handlers, from a request to a response. Of gin the model keeps what the
-- handlers read, the path's parameters and the query's, which are empty where they are missing.
use block_explorer_backend.Prelude.{String}
use block_explorer_backend.Text.{Text}
use block_explorer_backend.Errors.Http.{Response, write_error, write_success, write_bad_request}
use block_explorer_backend.Effect.{Result, ok, err, Io}
pub mod Blocks
pub mod Queries
pub mod Wallets
pub mod Debug
pub mod Guards

pub record Request : Type 0 where
  pub param : String → Text
  pub query : String → Text

abbrev pub Handler : Type 0 → Type 0 → Type 0
Handler W T = W → Response T × W

-- `if err != nil { types.WriteError(c, err); return }; types.WriteSuccess(c, f(result))`
abbrev pub written : {A T : Type 0} → (A → T) → Result A → Response T
written f (ok a) = write_success (f a)
written f (err e) = write_error e

abbrev pub answer_with : {W A T : Type 0} → (A → T) → Io W A → Handler W T
answer_with f m w = let (r, w') = m w in (written f r, w')

-- What the parsing of a parameter ends with: a value, or the message of a bad request.
pub data Parsed (A : Type 0) : Type 0 where
  parsed : A → Parsed A
  refused : String → Parsed A

-- `if !ok { return }`, after `types.WriteBadRequest(c, message)`.
abbrev pub when_parsed : {W A T : Type 0} → Parsed A → (A → Handler W T) → Handler W T
when_parsed (parsed a) f w = f a w
when_parsed (refused message) f w = (write_bad_request message, w)
