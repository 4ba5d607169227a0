-- ===== src/Lnbits/Outcomes.antt =====
-- How the client classifies the answers to a payout and to a settlement.
use ganji.Base.{◌≤◌, ◌<◌, ◌≡◌, ◌↔◌, true, arith}
use ganji.Lnbits.{Reply, unreachable, replied, err, refused, CreateInvoiceResponse, pay_invoice}

-- LNbits said no: an answer whose body was read, with a status from 300 to 499.
abbrev pub SaidNo : {A : Type 0} → Reply A → Type 0
SaidNo unreachable = ⊥
SaidNo (replied status readable value) = (300 ≤ status) × (status < 500) × (readable ≡ true)

-- A payout counts as refused exactly when an answer was read whose status is from 300 to 499.
pub pay_invoice-refused :
    (r : Reply CreateInvoiceResponse) → (pay_invoice r ≡ err refused) ↔ SaidNo r
unfolding pay_invoice
pay_invoice-refused unreachable = ((λ e. cc e), (λ h. absurd h))
pay_invoice-refused (replied status readable value) = ((λ e. ground arith), (λ h. ground arith))
