-- ===== src/Tests/Auth.antt =====
-- The mechanisms at concrete inputs. The authenticator knows one name.
use imap_go.Auth.CramMd5.{Client, new_server, sent_challenge, next_client, next_server}
use imap_go.Auth.CramMd5.Repeats.{asked, after, asks_again}
use imap_go.Auth.Login.Exchange.{converse, converse_ends}
use imap_go.Auth.Login
use imap_go.Auth.Oauthbearer
use imap_go.Auth.Oauthbearer.RoundTrip.{next_bearer, next_comma}
use imap_go.Auth.Plain
use imap_go.Auth.Plain.Accepts.{IsAccepted, next_iff}
use imap_go.Auth.Xoauth2
use imap_go.Auth.Xoauth2.RoundTrip.{next-start}
use imap_go.Auth.{Authenticator, completed, denied, answer, unexpected_response}
use imap_go.Prelude.{
  ℕ, ◌≡◌, ◌↔◌, refl, true, false, [], ◌∷◌, ◌++◌, none, some, Bytes, codes, arith, equal,
  if◌then◌else◌,
}

abbrev ann_only : Authenticator ℕ
ann_only mechanism identity credentials = if equal identity (codes "ann") then none else some 7

abbrev digest : Bytes → Bytes → Bytes
digest key message = key ++ message

abbrev response : Bytes
response = codes "x" ++ 0 ∷ (codes "ann" ++ 0 ∷ codes "pw")

next_iff_example :
    (((Plain.next ann_only false response).0.error ≡ none) ↔ IsAccepted ann_only response)
    × ((Plain.next ann_only false response).1 ≡ true)
    × ((Plain.next ann_only true response).0.error ≡ some completed)
next_iff_example = next_iff ann_only response

converse_ends_example :
    (converse ann_only 3
        (record { username = codes "bob"; password = codes "pw"; step = 0 })
        Login.new_server
        []
      ≡ some (answer (ann_only (codes "LOGIN") (codes "bob") (codes "pw"))))
    × ((Login.next_server ann_only (record { step = 3; username = [] }) []).0.error
        ≡ some unexpected_response)
    × ((Login.next_server ann_only (record { step = 3; username = [] }) []).1
        ≡ record { step = 3; username = [] })
converse_ends_example =
    converse_ends ann_only (codes "bob") (codes "pw") [] 0 (record { step = 3; username = [] }) []
      (omega arith)

login_denied :
    converse ann_only 3
      (record { username = codes "bob"; password = []; step = 0 })
      Login.new_server
      []
    ≡ some (some (denied 7))
unfolding converse equal
login_denied = refl

abbrev cram_client : Client
cram_client = record { username = codes "ann"; password = codes "k" }

asks_again_example :
    ((next_server ann_only new_server []).0.challenge ≡ some sent_challenge)
    × ((next_server ann_only
          (after ann_only digest (asked ann_only digest []) (codes "?" ∷ []))
          (next_client digest cram_client sent_challenge)).0.error
        ≡ answer (
            ann_only
              (codes "CRAM-MD5")
              (codes "ann")
              (next_client digest cram_client sent_challenge)))
asks_again_example =
    asks_again ann_only digest cram_client [] (codes "?" ∷ []) (refl, (refl, (refl, tt)))

abbrev google : Xoauth2.Client
google = record { username = codes "ann"; access_token = codes "tok" }

next-start_example :
    (Xoauth2.next ann_only false (Xoauth2.start google)).0.error
    ≡ answer (ann_only Xoauth2.name (codes "ann") (codes "tok"))
next-start_example =
    next-start ann_only google (λ e. cc) (λ e. cc) (refl, (refl, (refl, tt)))
      (refl, (refl, (refl, tt)))

abbrev bearer : Bytes → Oauthbearer.Client
bearer username = record {
  username = username;
  access_token = codes "tok";
  host = codes "h";
  port = [];
}

next_bearer_example :
    (Oauthbearer.next ann_only false (Oauthbearer.start (bearer (codes "ann")))).0.error
    ≡ answer (ann_only Oauthbearer.name (codes "ann") (codes "tok"))
next_bearer_example =
    next_bearer ann_only (bearer (codes "ann")) (λ e. cc) (λ e. cc) (refl, (refl, (refl, tt)))
      (refl, tt) tt (refl, (refl, (refl, tt)))

next_comma_example :
    (Oauthbearer.next ann_only false (Oauthbearer.start (bearer (codes "ann,b")))).0.error
    ≡ answer (ann_only Oauthbearer.name (codes "ann") (codes "tok"))
next_comma_example =
    next_comma ann_only (bearer (codes "ann,b")) (codes "ann") (codes "b") refl (λ e. cc) (λ e. cc)
      (refl, (refl, (refl, tt))) (refl, tt) (refl, tt) tt (refl, (refl, (refl, tt)))
