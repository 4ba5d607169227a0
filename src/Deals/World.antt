-- ===== src/Deals/World.antt =====
-- What a request runs in: the tables, what the code does not decide, and the monad of the handlers.
--
-- A request reads and writes `Tables` and appends to `calls`, the calls that reach LNbits, the blob
-- store, the notifier and the CV. Whatever lies outside the program is an `Env`, a function of the
-- number of the interaction (`tick`): whether a database statement fails, what other requests wrote
-- before it, what LNbits answers, the time and the random bytes. Theorems hold for every `Env`
-- unless they say what they ask of it.
use ganji.Base.{ℕ, suc, Bool, true, false, Option, List, ◌∷◌, Text}
use ganji.Base.Int.{ℤ}
use ganji.Lnbits.{Reply, CheckPaymentResponse, SimpleInvoiceResponse, CreateInvoiceResponse}
use ganji.Lnbits.{CreateHoldInvoiceRequest}
use ganji.Lnbits
use ganji.Deals.Types.{Time, Deal, Artifact, Verification}

-- The sentinel errors of errors.go, and the errors of what the package calls.
pub data Error : Type 0 where
  invalid_input forbidden deal_not_found artifact_not_found verification_not_found : Error
  invalid_transition no_checking_id payout_in_flight : Error
  payout_refused lnbits_failed db_failed random_failed storage_failed blob_not_found : Error

pub data Result (A : Type 0) : Type 0 where
  ok : A → Result A
  err : Error → Result A

pub record Tables : Type 0 where
  pub deals : List Deal
  pub artifacts : List Artifact
  pub verifications : List Verification

pub data Notice : Type 0 where
  payment_locked deal_disputed deal_released deal_refunded : Notice

-- What became of a payout that was asked for: LNbits refused it, the outcome is unknown, or paid.
pub data Payout : Type 0 where
  refused unknown sent : Payout

pub data Call : Type 0 where
  create_hold : CreateHoldInvoiceRequest → Call
  check : Text → Call
  settle cancel : Text → Call
  pay : Text → Payout → Call
  notify : Notice → Text → Call
  anchor : Text → Text → Call
  save_blob delete_blob open_blob size_blob : Text → Call

pub record World : Type 0 where
  pub tables : Tables
  pub tick : ℕ
  pub calls : List Call

pub record Env : Type 0 where
  -- a statement (or BEGIN, or COMMIT) returns an error; a row that cannot be decoded is one too
  pub db_fails : ℕ → Bool
  -- a COMMIT that returned an error was carried out all the same
  pub commit_lost : ℕ → Bool
  -- what other requests have written before a statement outside a transaction
  pub others : ℕ → Tables → Tables
  pub now : ℕ → Time
  pub new_id : ℕ → Text
  -- 32 random bytes in hex, or in base64url; `none` where `rand.Read` fails
  pub random_hex : ℕ → Option Text
  pub random_token : ℕ → Option Text
  -- sha256 of bytes given and returned in hex
  pub sha256 : Text → Text
  -- `encryptPreimage` fails
  pub encrypt_fails : ℕ → Bool
  pub check_reply : ℕ → Reply CheckPaymentResponse
  pub settle_reply : ℕ → Reply SimpleInvoiceResponse
  pub cancel_reply : ℕ → Reply SimpleInvoiceResponse
  pub pay_reply : ℕ → Reply CreateInvoiceResponse
  pub hold_reply : ℕ → Reply CreateInvoiceResponse
  -- the tables of package unicode: `unicode.ToLower`, and one representative of each orbit of
  -- `unicode.SimpleFold`
  pub lower_rune : ℕ → ℕ
  pub fold_rune : ℕ → ℕ
  -- `mail.ParseAddress`: the address it parses
  pub parse_address : Text → Option Text
  -- the blob store: a save or an open fails, a size
  pub save_fails : ℕ → Bool
  pub open_result : ℕ → Result (Unit {0})
  pub size_result : ℕ → Result ℕ

-- How the service was built: the options of `NewService`, and the LNbits client's settings.
pub record Config : Type 0 where
  pub has_cv : Bool
  pub has_notifier : Bool
  pub has_storage : Bool
  pub max_upload_bytes : ℤ
  pub client : Lnbits.Config

abbrev pub M : Type 0 → Type 0
M A = World → Result A × World

module _ {A : Type 0} where
  unfoldable pub pure : A → M A
  pure a w = (ok a, w)

  unfoldable pub raise : Error → M A
  raise e w = (err e, w)

  unfoldable pub lift : Result A → M A
  lift r w = (r, w)

  -- A result taken as a value, `if err := m; err != nil { ... }`.
  unfoldable pub try : M A → M (Result A)
  try m w = let (r, w') = m w in (ok r, w')

-- An early `return nil, err` under a test.
unfoldable pub raise_if : Bool → Error → M (Unit {0})
raise_if true e w = (err e, w)
raise_if false e w = (ok tt, w)

-- A call that leaves the program, and the number by which its answer is found.
unfoldable pub call : Call → M ℕ
call c w = (ok w.tick, record w { tick = suc w.tick; calls = c ∷ w.calls })

-- An interaction that is not recorded.
unfoldable pub step : M ℕ
step w = (ok w.tick, record w { tick = suc w.tick })

module _ {A B : Type 0} where
  abbrev continue : Result A → (A → M B) → M B
  continue (ok a) f w = f a w
  continue (err e) f w = (err e, w)

  infixl 5 ◌>>=◌ ◌>>◌
  -- Opening this opens the other ways to build an action.
  unfoldable pub ◌>>=◌ : M A → (A → M B) → M B
  unfolding pure raise lift try raise_if call step
  ◌>>=◌ m f w = let (r, w') = m w in continue r f w'

  abbrev pub ◌>>◌ : M A → M B → M B
  m >> k = m >>= λ _. k
