-- ===== src/Store/Inbox/Expiry.antt =====
-- A message is live until its time has passed.
use muster_chat.Base.{
  ℕ, ◌+◌, ◌<◌, ◌≡◌, refl, ◌∙◌, true, [], ◌∷◌, Result, ok, Text, Fields, codes, ℤ, pos, ltb, ltb_iff,
  int_of_text-decimal, decimal, lookup-put, ==_refl,
}
use muster_chat.Valkey.{Entry}
use muster_chat.Store.Agents.{Crash, int_item}
use muster_chat.Store.Agents.Reading.{int_item-some}
use muster_chat.Store.Inbox.{stamp, is_live, live_entries}

-- When an entry expires.
abbrev pub expiry : Entry → Result Crash ℤ
expiry e = int_item (codes "expires_at") (codes "0") e.fields

-- What is appended expires when its time to live has passed.
pub expiry-stamp :
    (msg_id : Text) (now ttl : ℕ) (fs : Fields)
    → expiry (record { id = msg_id; fields = stamp now ttl fs }) ≡ ok (pos (now + ttl))
unfolding stamp
expiry-stamp msg_id now ttl fs =
    int_item-some (codes "expires_at") (codes "0") (decimal (now + ttl)) (pos (now + ttl)) _
      (lookup-put (codes "expires_at") (codes "expires_at") (decimal (now + ttl)) _
        ∙ rw (==_refl (codes "expires_at")) refl)
      (int_of_text-decimal (now + ttl))

-- The only entry of an inbox is answered with before it expires.
pub live_entries-single :
    (now : ℕ) (e : Entry) (until : ℕ)
    → expiry e ≡ ok (pos until)
    → now < until
    → live_entries now (e ∷ []) ≡ ok (e ∷ [])
unfolding live_entries is_live
live_entries-single now e until h k =
    let later : ltb now until ≡ true = (ltb_iff now until).1 k in rw (h, later)
