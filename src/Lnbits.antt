-- ===== src/Lnbits.antt =====
-- Package lnbits (backend/internal/lnbits/client.go, models.go): what the client makes of an answer.
pub mod Outcomes
use ganji.Base.{
  ℕ, Bool, true, false, not, ◌||◌, Option, none, some, List, [], ◌∷◌, Text, leb, ltb, is_empty,
  codes, if◌then◌else◌, ◌==◌,
}
use ganji.Base.Int.{ℤ, is_zero_ℤ}

-- What the HTTP client gives for a request: nothing (a URL that cannot be parsed, a network
-- failure, the timeout), or an answer with its status, whether its body can be read, and the value
-- that its JSON decodes to.
pub data Reply (A : Type 0) : Type 0 where
  unreachable : Reply A
  replied : ℕ → Bool → Option A → Reply A

pub data ClientError : Type 0 where
  refused failed : ClientError

-- `refused` is `ErrPayoutRefused`; `failed` is every other error.
pub data Answer (A : Type 0) : Type 0 where
  ok : A → Answer A
  err : ClientError → Answer A

pub record CheckPaymentDetails : Type 0 where
  pub checking_id : Text
  pub amount : ℤ
  pub fee : ℤ
  pub memo : Text
  pub status : Text

pub record CheckPaymentResponse : Type 0 where
  pub paid : Bool
  pub details : CheckPaymentDetails

pub record SimpleInvoiceResponse : Type 0 where
  pub ok : Bool
  pub checking_id : Text
  pub error_message : Text

pub record CreateInvoiceResponse : Type 0 where
  pub checking_id : Text
  pub payment_hash : Text
  pub payment_request : Text

pub record Invoice : Type 0 where
  pub checking_id : Text
  pub payment_hash : Text
  pub payment_request : Text

pub record CreateHoldInvoiceRequest : Type 0 where
  pub out : Bool
  pub amount : ℤ
  pub memo : Text
  pub payment_hash : Text
  pub expiry : ℤ
  pub webhook : Text
  pub unit : Text

pub record Config : Type 0 where
  pub webhook_url : Text
  pub hold_expiry : ℤ

-- `http.StatusMultipleChoices`, `http.StatusInternalServerError`
abbrev status_multiple_choices : ℕ
status_multiple_choices = 300

abbrev status_internal_server_error : ℕ
status_internal_server_error = 500

-- `postJSON` with an `out` to decode into, and the body of `CheckPayment`.
unfoldable pub decode : {A : Type 0} → Reply A → Answer A
decode unreachable = err failed
decode (replied status readable value) =
    if leb status_multiple_choices status
    then err failed
    else elim value [ none ↦ err failed | some a ↦ ok a ]

unfoldable pub check_payment : Reply CheckPaymentResponse → Answer CheckPaymentResponse
unfolding decode
check_payment r = decode r

-- `HealthCheck` decodes nothing.
unfoldable health_check : Reply (Unit {0}) → Answer (Unit {0})
health_check unreachable = err failed
health_check (replied status readable value) =
    if leb status_multiple_choices status then err failed else ok tt

-- The request that `CreateHoldInvoice` sends: the client's defaults for what the caller left out.
unfoldable pub hold_request : Config → CreateHoldInvoiceRequest → CreateHoldInvoiceRequest
hold_request c req =
    let webhook = if is_empty req.webhook then c.webhook_url else req.webhook in
    let unit = if is_empty req.unit then codes "sat" else req.unit in
    let expiry = if is_zero_ℤ req.expiry then c.hold_expiry else req.expiry in
    record req { expiry = expiry; webhook = webhook; unit = unit }

unfoldable pub create_hold_invoice : Reply CreateInvoiceResponse → Answer Invoice
unfolding decode
create_hold_invoice r = elim (decode r) [
  | err e ↦ err e
  | ok resp ↦ ok (record {
    checking_id = resp.checking_id;
    payment_hash = resp.payment_hash;
    payment_request = resp.payment_request;
  })
]

-- `SettleHold` and `CancelHold`: an answer whose `ok` is false is an error too.
unfoldable pub settle_hold : Reply SimpleInvoiceResponse → Answer SimpleInvoiceResponse
unfolding decode
settle_hold r = elim (decode r) [ err e ↦ err e | ok out ↦ if out.ok then ok out else err failed ]

unfoldable pub cancel_hold : Reply SimpleInvoiceResponse → Answer SimpleInvoiceResponse
unfolding decode
cancel_hold r = elim (decode r) [ err e ↦ err e | ok out ↦ if out.ok then ok out else err failed ]

-- `PayInvoice`: the checking id of the outgoing payment. Only a status below 500 whose body was
-- read is reported as `ErrPayoutRefused`.
unfoldable pub pay_invoice : Reply CreateInvoiceResponse → Answer Text
pay_invoice unreachable = err failed
pay_invoice (replied status readable value) =
    if leb status_multiple_choices status
    then (if not readable
        then err failed
        else if ltb status status_internal_server_error
        then err refused
        else err failed)
    else elim value [ none ↦ err failed | some resp ↦ ok resp.checking_id ]
