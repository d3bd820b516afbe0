-- ===== src/Tests/Pattern.antt =====
-- Patterns of LIST and command lines at concrete inputs.
use imap_go.Imap.CapSet.{new_cap_set, has, remove, has_auth, clone}
use imap_go.MemServer.Pattern.Matches.{Matches, match_pattern_iff}
use imap_go.MemServer.Pattern.{match_pattern, has_children}
use imap_go.Prelude.{true, false, [], ◌∷◌, ◌≡◌, refl, ◌↔◌, codes, equal}
use imap_go.Prelude.Result.{ok, err}
use imap_go.Server.Dispatch.Lines.{parse_line-append}
use imap_go.Server.Dispatch.{LineError, parse_line}

match_pattern_iff_example :
    (match_pattern b'/' (codes "a/%") (codes "a/b") ≡ true)
    ↔ Matches b'/' (codes "a/%") (codes "a/b")
match_pattern_iff_example = match_pattern_iff b'/' (codes "a/%") (codes "a/b")

percent_stops : match_pattern b'/' (codes "a%c") (codes "a/c") ≡ false
unfolding match_pattern
percent_stops = refl

star_goes_on : match_pattern b'/' (codes "a*c") (codes "a/b/c") ≡ true
unfolding match_pattern
star_goes_on = refl

children : has_children (codes "a") (codes "ab" ∷ codes "a/b" ∷ []) b'/' ≡ true
unfolding has_children
children = refl

parse_line-append_example :
    (parse_line (codes "A1 SELECT INBOX x")
      ≡ ok (record { tag = codes "A1"; name = codes "SELECT"; rest = codes "INBOX x" }))
    × (parse_line (codes "A1 SELECT")
        ≡ ok (record { tag = codes "A1"; name = codes "SELECT"; rest = [] }))
parse_line-append_example =
    parse_line-append b'A' b'S' (codes "1") (codes "ELECT") (codes "INBOX x") (refl, (refl, tt))
      (refl, (refl, (refl, (refl, (refl, (refl, tt))))))

no_tag : parse_line (codes " NOOP") ≡ err LineError.empty_tag
unfolding parse_line
no_tag = refl

auth_plain : has_auth (new_cap_set (codes "IDLE" ∷ codes "AUTH=PLAIN" ∷ [])) (codes "plain") ≡ true
unfolding has_auth new_cap_set equal
auth_plain = refl

removed :
    has (remove (codes "IDLE" ∷ []) (clone (new_cap_set (codes "IDLE" ∷ [])))) (codes "IDLE")
    ≡ false
unfolding has remove clone new_cap_set equal
removed = refl
