-- ===== src/Effect.antt =====
-- Go's `(value, error)` results, and calls that act on the world: an `Io W A` returns a value or an
-- error and leaves a new world behind, after an error too.
pub mod Ensures
pub mod Keeps
use block_explorer_backend.Prelude.{String, Option, none, some}
use block_explorer_backend.Errors.{GoError, wrapf}

pub data Result (A : Type 0) : Type 0 where
  ok : A → Result A
  err : GoError → Result A

abbrev pub Io : Type 0 → Type 0 → Type 0
Io W A = W → Result A × W

module _ {W A : Type 0} where
  abbrev pub pure : A → Io W A
  pure a w = (ok a, w)

  abbrev pub throw : GoError → Io W A
  throw e w = (err e, w)

  -- A computation that does not act.
  abbrev pub lift : Result A → Io W A
  lift r w = (r, w)

-- What follows a call, by its outcome.
abbrev pub continue : {W A B : Type 0} → Result A → (A → Io W B) → Io W B
continue (ok a) f w = f a w
continue (err e) f w = (err e, w)

infixl 5 ◌>>=◌ ◌>>◌
abbrev pub ◌>>=◌ : {W A B : Type 0} → Io W A → (A → Io W B) → Io W B
◌>>=◌ m f w = let (r, w') = m w in continue r f w'

abbrev pub ◌>>◌ : {W A B : Type 0} → Io W A → Io W B → Io W B
m >> k = m >>= λ _. k

-- `if err != nil { return f(err) }`
abbrev pub on_error : {A : Type 0} → (GoError → GoError) → Result A → Result A
on_error f (ok a) = ok a
on_error f (err e) = err (f e)

abbrev pub map_err : {W A : Type 0} → (GoError → GoError) → Io W A → Io W A
map_err f m w = let (r, w') = m w in (on_error f r, w')

-- `if err != nil { return fmt.Errorf("context: %w", err) }`
abbrev pub context : {W A : Type 0} → String → Io W A → Io W A
context s m = map_err (wrapf s) m

-- `if err := check; err != nil { return e }`
abbrev pub unless_error : {W A : Type 0} → Option GoError → GoError → Io W A → Io W A
unless_error (some _) e m = throw e
unless_error none e m = m
