-- ===== src/Errors.antt =====
-- console/app/lib/errors.ts: one string from an error and the chain of its causes.
use kmc.Common.{
  ℕ, not, ◌&&◌, Option, none, some, List, [], ◌∷◌, if◌then◌else◌, Text, codes, truthy, text_eq,
  join,
}

-- What the console reads of a thrown value: the messages along the chain of causes, up to the
-- first value that repeats, and the fields where a client library puts an HTTP status.
pub record ErrorValue : Type 0 where
  pub messages : List Text
  pub status_code : Option ℕ
  pub response_status_code : Option ℕ
  pub response_status : Option ℕ
  pub code : Option ℕ

-- `parts.filter((p, i) => p && p !== parts[i - 1])`, with the part before
unfoldable pub dedupe : Option Text → List Text → List Text
unfolding text_eq
dedupe last [] = []
dedupe none (p ∷ ps) = let rest = dedupe (some p) ps in if truthy p then p ∷ rest else rest
dedupe (some q) (p ∷ ps) =
    let rest = dedupe (some p) ps in if truthy p && not (text_eq p q) then p ∷ rest else rest

abbrev or_unknown : Text → Text
or_unknown [] = codes "Unknown error"
or_unknown (c ∷ s) = c ∷ s

unfoldable pub format_error : ErrorValue → Text
unfolding dedupe join
format_error err = or_unknown (join (codes ": ") (dedupe none err.messages))

-- `new Error(message)`
abbrev pub plain_error : Text → ErrorValue
plain_error message = record {
  messages = message ∷ [];
  status_code = none;
  response_status_code = none;
  response_status = none;
  code = none;
}

-- `new Error(message, { cause })`
abbrev pub caused : Text → ErrorValue → ErrorValue
caused message cause = record {
  messages = message ∷ cause.messages;
  status_code = none;
  response_status_code = none;
  response_status = none;
  code = none;
}
