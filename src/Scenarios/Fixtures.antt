-- ===== src/Scenarios/Fixtures.antt =====
-- A small database and an environment in which everything answers, for runs of the model.
use ganji.Base.{true, false, none, some, List, [], ◌∷◌, Text, codes}
use ganji.Base.Int.{pos}
use ganji.Lnbits
use ganji.Lnbits.{Reply, CheckPaymentResponse}
use ganji.Deals.Status.{Status}
use ganji.Deals.Types.{Deal, Artifact, ArtifactKind}
use ganji.Deals.World.{ok, World, Env, Config}

abbrev pub deal_1 : Text
deal_1 = codes "d1"

abbrev pub freelancer : Text
freelancer = codes "f1"

abbrev pub client : Text
client = codes "c@x.io"

-- A deal in a given status, with no payout yet.
abbrev pub deal_in : Status → Deal
deal_in s = record {
  id = deal_1;
  freelancer_id = freelancer;
  client_email = client;
  title = codes "site";
  amount_sats = pos 1000;
  source_platform = codes "chat";
  preimage_hash = codes "hash";
  preimage = codes "secret";
  payee_invoice = codes "lnbc1";
  invoice = codes "lnbc2";
  checking_id = codes "chk";
  payout_checking_id = [];
  payout_attempted_at = none;
  share_token = codes "token";
  status = s;
  dispute_reason = [];
  disputed_at = none;
  resolved_at = none;
  resolved_by = [];
  created_at = 5;
  verified_at = none;
}

abbrev pub artifact_1 : Artifact
artifact_1 = record {
  id = codes "a1";
  deal_id = deal_1;
  kind = ArtifactKind.source_file;
  storage_key = codes "k";
  uploaded_at = 6;
}

abbrev pub world_of : List Deal → World
world_of ds = record {
  tables = record { deals = ds; artifacts = artifact_1 ∷ []; verifications = [] };
  tick = 0;
  calls = [];
}

abbrev pub world_in : Status → World
world_in s = world_of (deal_in s ∷ [])

-- LNbits answers with this status of a paid payment.
abbrev paid_with : Text → Reply CheckPaymentResponse
paid_with s = Lnbits.replied 200 true (
    some (record {
      paid = true;
      details = record {
        checking_id = codes "chk";
        amount = pos 1000;
        fee = pos 0;
        memo = [];
        status = s;
      };
    }))

abbrev simple_reply : Reply Lnbits.SimpleInvoiceResponse
simple_reply =
    Lnbits.replied 200 true
      (some (record { ok = true; checking_id = codes "chk"; error_message = [] }))

abbrev pub invoice_reply : Reply Lnbits.CreateInvoiceResponse
invoice_reply = Lnbits.replied 200 true (
    some (record {
      checking_id = codes "out";
      payment_hash = codes "ph";
      payment_request = codes "lnbc9";
    }))

-- Nothing fails and nobody else writes.
abbrev pub calm : Env
calm = record {
  db_fails = λ t. false;
  commit_lost = λ t. false;
  others = λ t tables. tables;
  now = λ t. 100;
  new_id = λ t. codes "new";
  random_hex = λ t. some (codes "ab12");
  random_token = λ t. some (codes "tok2");
  sha256 = λ x. x;
  encrypt_fails = λ t. false;
  check_reply = λ t. paid_with (codes "SETTLED");
  settle_reply = λ t. simple_reply;
  cancel_reply = λ t. simple_reply;
  pay_reply = λ t. invoice_reply;
  hold_reply = λ t. invoice_reply;
  lower_rune = λ c. c;
  fold_rune = λ c. c;
  parse_address = λ s. some s;
  save_fails = λ t. false;
  open_result = λ t. ok tt;
  size_result = λ t. ok 3;
}

abbrev pub config : Config
config = record {
  has_cv = true;
  has_notifier = true;
  has_storage = true;
  max_upload_bytes = pos 1000;
  client = record { webhook_url = codes "https://x.io/hook"; hold_expiry = pos 3600 };
}
