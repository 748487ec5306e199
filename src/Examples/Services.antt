-- ===== src/Examples/Services.antt =====
-- Runs of the transparency service, and a hexadecimal text with blanks.
use custody.Base.{ℕ, ◌≡◌, refl, true, false, List, [], ◌∷◌, some, replicate, arith, All}
use custody.Crypto.{hex, from_hex}
use custody.Crypto.HexLaws.{IsByte}
use custody.Statements.{Statement}
use custody.Statements.Schemas.{is_hex}
use custody.Statements.Schemas.HexTexts.{padded, is_hex-padded}
use custody.Ts.Service.{TransparencyService}
use custody.Ts.Service.Counting.{submit_all}
use custody.Examples.{toy, toy_log_codec, user_contract, relay_statement}
use custody.Examples.Logs.{empty_log}

abbrev service : TransparencyService
service = record {
  log = empty_log;
  base_delay_ms = 15;
  extra_delay_ms = 0;
  down = false;
  submissions = 0;
  refusals = 0;
}

-- The second statement is of an issuer that the log does not know.
abbrev two_statements : List (Statement × ℕ)
two_statements = (user_contract, 1000) ∷ (relay_statement, 1010) ∷ []

abbrev after_two : TransparencyService
after_two = submit_all toy toy_log_codec service two_statements

fives : All IsByte (replicate 31 5)
fives = ground arith

is_hex-padded_example :
    (is_hex (padded (hex (replicate 31 5))) 64 ≡ true)
    × (from_hex (padded (hex (replicate 31 5))) ≡ some (replicate 31 5))
is_hex-padded_example = is_hex-padded (replicate 31 5) fives refl
