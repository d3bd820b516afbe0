-- ===== src/Server/Tracker/Heard.antt =====
-- What a client hears from the text that `Flush` writes, by the words of the responses.
use imap_go.MemServer.Message.{Flag}
use imap_go.Prelude.{
  ℕ, ◌-◌, true, List, [], ◌∷◌, ◌++◌, append-nil, append_assoc, ◌≡◌, sym, ap, ◌∙◌, Bytes, codes,
}
use imap_go.Server.Tracker.Counts.{replay}
use imap_go.Server.Tracker.{
  Update, exists_update, expunge_update, fetch_flags_update, write_exists, write_expunge,
  write_message_flags, write_updates,
}
use imap_go.Wire.Decimal.{format_uint}
use imap_go.Wire.Encoder.{
  Encoder, raw, write_byte, star, number, sp, atom, begin_list, end_list, crlf, num_response,
}
use imap_go.Wire.Flags.{flags-Extends}

-- An untagged response about a number.
abbrev pub line : ℕ → Bytes → Bytes
line n words = codes "* " ++ (format_uint n ++ (b' ' ∷ (words ++ codes "\r\n")))

-- A client that knows of a number of messages reads responses, and then knows of another: `EXISTS`
-- states the number, `EXPUNGE` takes one message away, and the flags of a message change nothing.
pub data Hears : ℕ → Bytes → ℕ → Type 0 where
  silence : {n : ℕ} → Hears n [] n
  exists_heard :
      {n k : ℕ} {t : Bytes} (m : ℕ) → Hears m t k → Hears n (line m (codes "EXISTS") ++ t) k
  expunge_heard :
      {n k : ℕ} {t : Bytes} (m : ℕ) → Hears (n - 1) t k → Hears n (line m (codes "EXPUNGE") ++ t) k
  flags_heard :
      {n k : ℕ} {t : Bytes} (m : ℕ) (s : Bytes)
      → Hears n t k
      → Hears n (line m (codes "FETCH (FLAGS " ++ (s ++ codes ")")) ++ t) k

num_response-line : (n : ℕ) (name : Bytes) (w : Encoder) → num_response n name w ≡ w ++ line n name
unfolding num_response raw write_byte star number sp atom crlf
num_response-line n name w = simp append_assoc

write_message_flags-line :
    (n : ℕ) (fs : List Flag) (w : Encoder)
    → (s : Bytes) × (write_message_flags n fs w
        ≡ w ++ line n (codes "FETCH (FLAGS " ++ (s ++ codes ")")))
unfolding write_message_flags raw write_byte star number sp atom crlf begin_list end_list
write_message_flags-line n fs w =
    let (s, e) = flags-Extends fs _ in
    (s, ap (λ v. (v ++ b')' ∷ []) ++ codes "\r\n") e ∙ simp append_assoc)

-- What a flush that allows expunges writes behind the text that is there.
pub write_updates-Hears :
    (us : List Update) (n : ℕ) (w : Encoder)
    → (t : Bytes) × (write_updates true us w ≡ w ++ t) × Hears n t (replay n us)
unfolding write_updates write_exists write_expunge
write_updates-Hears [] n w = ([], sym (append-nil w), Hears.silence)
write_updates-Hears (exists_update m ∷ us) n w =
    let (t, e, h) = write_updates-Hears us m (w ++ line m (codes "EXISTS")) in
    (
      line m (codes "EXISTS") ++ t,
      ap (write_updates true us) (num_response-line m (codes "EXISTS") w)
          ∙ e
          ∙ append_assoc w (line m (codes "EXISTS")) t,
      Hears.exists_heard m h,
    )
write_updates-Hears (expunge_update m ∷ us) n w =
    let (t, e, h) = write_updates-Hears us (n - 1) (w ++ line m (codes "EXPUNGE")) in
    (
      line m (codes "EXPUNGE") ++ t,
      ap (write_updates true us) (num_response-line m (codes "EXPUNGE") w)
          ∙ e
          ∙ append_assoc w (line m (codes "EXPUNGE")) t,
      Hears.expunge_heard m h,
    )
write_updates-Hears (fetch_flags_update m fs ∷ us) n w =
    let (s, f) = write_message_flags-line m fs w in
    let words = codes "FETCH (FLAGS " ++ (s ++ codes ")") in
    let (t, e, h) = write_updates-Hears us n (w ++ line m words) in
    (
      line m words ++ t,
      ap (write_updates true us) f ∙ e ∙ append_assoc w (line m words) t,
      Hears.flags_heard m s h,
    )
