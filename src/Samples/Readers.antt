-- ===== src/Samples/Readers.antt =====
-- The readers and the decoders at small inputs.
use Prim.Native.String as S
use dmarc_report_viewer.Common.{filter, ◌≡◌, refl, String, Option, some, List, [], ◌∷◌, All, arith}
use dmarc_report_viewer.Common.Int.{pos}
use dmarc_report_viewer.Common.Ip.{ip_eq}
use dmarc_report_viewer.Common.Outcome.{OnDone, panicked}
use dmarc_report_viewer.Common.Result.{Result, ok, err}
use dmarc_report_viewer.Dmarc.{DispositionType}
use dmarc_report_viewer.Dmarc.{DmarcResultType, DkimResultType, SpfResultType}
use dmarc_report_viewer.Dmarc.Names.{
  deserialize_disposition, serialize_disposition, deserialize_dmarc_result, serialize_dmarc_result,
  deserialize_dkim_result, serialize_dkim_result, deserialize_spf_result, serialize_spf_result,
}
use dmarc_report_viewer.Tls.{PolicyType, FailureResultType}
use dmarc_report_viewer.Tls.Names.{
  deserialize_policy_type, serialize_policy_type, deserialize_failure_type, serialize_failure_type,
}
use dmarc_report_viewer.Names.{deserialize-serialize}
use dmarc_report_viewer.Imap.{ImapEnv, Fetch, get_mails, chunk_rounds}
use dmarc_report_viewer.Imap.Fetched.{IsFetchedFrom, get_mails-IsFetchedFrom}
use dmarc_report_viewer.Mail.Decode.{q_decode}
use dmarc_report_viewer.Mail.Decode.Panics.{Returns, q_decode-panics, q_decode-Returns}
use dmarc_report_viewer.Samples.{hashes, config, bg_env}
use dmarc_report_viewer.Common.BTree as BTree
use dmarc_report_viewer.Common.Map as Map
use dmarc_report_viewer.Common.Text.{decimal}
use dmarc_report_viewer.Common.Texts.{as_bytes, join}
use dmarc_report_viewer.Hasher.{create_hash}
use dmarc_report_viewer.Mail.{Mail}
use dmarc_report_viewer.Background.{collect_mails}
use dmarc_report_viewer.Background.Folders.{with_imap}

abbrev lower : String → String
lower s = s

abbrev ids : List String
ids = "a" ∷ "b" ∷ "c" ∷ []

-- An umlaut after a plain letter
q_decode-panics_example : q_decode (S.◌++◌ "a" (S.◌∷◌ "ä" "=C3")) ≡ panicked
q_decode-panics_example = q_decode-panics "a" "ä" "=C3" (refl, λ e. cc, tt) (omega arith)

q_decode-Returns_example : Returns (q_decode "a=C3=")
q_decode-Returns_example = q_decode-Returns "a=C3=" (refl, (refl, (refl, (refl, (refl, tt)))))

-- A server that answers with one mail
abbrev fetched : Fetch
fetched = record {
  uid = some 1;
  size = some 2;
  envelope = some (record { subject = Option.none; sender = Option.none; to = Option.none });
  internal_date = some (pos 0);
  body = some (1 ∷ 2 ∷ []);
}

abbrev pub imap_env : ImapEnv
imap_env = record {
  hashes = hashes;
  decode = record {
    to_lowercase = lower;
    base64 = λ s. err "no Base64";
    for_label = λ label. Option.none;
    captures = λ s. [];
  };
  utf8_lossy = λ bytes. "text";
  client = ok tt;
  login = λ user password. ok tt;
  select = λ folder. ok (record {
    exists = 1;
    fetch = λ sequence query. ok (ok fetched ∷ []);
    uid_fetch = λ sequence query. ok (ok fetched ∷ []);
  });
}

get_mails-IsFetchedFrom_example :
    OnDone (All (IsFetchedFrom imap_env config "INBOX")) (get_mails imap_env config "INBOX")
get_mails-IsFetchedFrom_example = get_mails-IsFetchedFrom imap_env config "INBOX"

-- The mails that the server answers with
abbrev of_result : Result (List (String × Mail)) → List (String × Mail)
of_result (ok answered) = answered
of_result (err message) = []

abbrev pub from_server : List (String × Mail)
from_server = of_result (collect_mails (with_imap imap_env bg_env config) config)

pub from_server_collected : collect_mails (with_imap imap_env bg_env config) config ≡ ok from_server
unfolding collect_mails get_mails BTree.extend BTree.insert filter Map.insert Map.get chunk_rounds
    create_hash join decimal as_bytes
from_server_collected = refl

deserialize-serialize_example :
    ((d : DispositionType) → deserialize_disposition lower (serialize_disposition d) ≡ ok d)
    × ((r : DmarcResultType) → deserialize_dmarc_result (serialize_dmarc_result r) ≡ some r)
    × ((r : DkimResultType) → deserialize_dkim_result (serialize_dkim_result r) ≡ some r)
    × ((r : SpfResultType) → deserialize_spf_result (serialize_spf_result r) ≡ some r)
    × ((t : PolicyType) → deserialize_policy_type (serialize_policy_type t) ≡ some t)
    × ((t : FailureResultType) → deserialize_failure_type (serialize_failure_type t) ≡ some t)
deserialize-serialize_example = deserialize-serialize lower (λ d. refl)
