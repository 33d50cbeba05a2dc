-- ===== src/Store/Rate/Window.antt =====
-- What passes in one window, however the requests of the agents come.
use muster_chat.Base.{
  ℕ, ◌+◌, ◌-◌, ◌<◌, min, ◌≡◌, ◌≢◌, sym, ap, ◌∙◌, Bool, List, [], ◌∷◌, Text, ◌==◌, ==_sound,
  ne_of_==, Bool-cases, inl, inr, arith, if◌then◌else◌,
}
use mathlib.Core.Path.{subst}
use muster_chat.Valkey.{Valkey, Laws}
use muster_chat.Config.{Config}
use muster_chat.Store.Keys.{rate_key, chat_kind, announce_kind}
use muster_chat.Store.Rate.{rate_check, rate_check_lem, Verdict}
use muster_chat.Store.Rate.Frame.{rate_check_frame}

-- A request that is counted, by its sender.
pub data Counted : Type 0 where
  chats announces : Text → Counted

-- how many chats of an agent there are
abbrev pub tries : Text → List Counted → ℕ
tries a [] = 0
tries a (chats b ∷ xs) = let n = tries a xs in if b == a then n + 1 else n
tries a (announces b ∷ xs) = tries a xs

module _ (v : Valkey) (cfg : Config) where
  open v use {Db, cell, counter}

  -- how many of them pass
  abbrev pub passes : Text → List Counted → Db → ℕ
  passes a [] db = 0
  passes a (chats b ∷ xs) db =
      let (r, db') = rate_check v chat_kind b cfg.chat_rate cfg.rate_window db in
      let n = passes a xs db' in if b == a then (if r.0 then n + 1 else n) else n
  passes a (announces b ∷ xs) db =
      passes a xs (rate_check v announce_kind b cfg.announce_rate cfg.rate_window db).1

  -- how many chats of an agent were counted
  abbrev pub counted : Text → Db → ℕ
  counted a db = counter (cell db (rate_key chat_kind a))

module _ (v : Valkey) (laws : Laws v) (cfg : Config) where
  open v use {Db, cell, counter}

  chat-ne-chat : (a b : Text) → b ≢ a → rate_key chat_kind b ≢ rate_key chat_kind a
  unfolding rate_key
  chat-ne-chat a b h e = h (cc)

  announce-ne-chat : (a b : Text) → rate_key announce_kind b ≢ rate_key chat_kind a
  unfolding rate_key
  announce-ne-chat a b e = ground arith

  -- one more of them
  one_more :
      (n c limit : ℕ) (passed : Bool) (retry : ℕ) (p : ℕ)
      → Verdict v laws (c + 1) limit (passed, retry)
      → p ≡ min n (limit - (c + 1))
      → (if passed then p + 1 else p) ≡ min (n + 1) (limit - c)
  one_more n c limit passed retry p (inl (le, e, _)) q = rw e (omega arith)
  one_more n c limit passed retry p (inr (lt, e, _)) q = rw e (omega arith)

  abbrev chat_check : Text → Db → (Bool × ℕ) × Db
  chat_check a db = rate_check v chat_kind a cfg.chat_rate cfg.rate_window db

  own_check :
      (a : Text) (n p : ℕ) (db : Db)
      → 0 < cfg.rate_window
      → p ≡ min n (cfg.chat_rate - counted v cfg a (chat_check a db).1)
      → (if (chat_check a db).0.0 then p + 1 else p)
        ≡ min (n + 1) (cfg.chat_rate - counted v cfg a db)
  own_check a n p db h q =
      let (more, verdict) = rate_check_lem v laws chat_kind a cfg.chat_rate cfg.rate_window db h in
      one_more n (counted v cfg a db) cfg.chat_rate (chat_check a db).0.0 (chat_check a db).0.1 p
        verdict (q ∙ ap (λ c. min n (cfg.chat_rate - c)) more)

  -- However the requests of the agents come, while no counter runs out of time: of the chats of an
  -- agent exactly as many pass as there are, or as the limit leaves; the window is positive.
  pub passes_lem :
      (a : Text) (xs : List Counted) (db : Db)
      → 0 < cfg.rate_window
      → passes v cfg a xs db ≡ min (tries a xs) (cfg.chat_rate - counted v cfg a db)
  passes_lem a [] db h = omega arith
  passes_lem a (announces b ∷ xs) db h =
      passes_lem a xs _ h
      ∙ ap (λ c. min (tries a xs) (cfg.chat_rate - counter c))
          (rate_check_frame v laws announce_kind b (rate_key chat_kind a) cfg.announce_rate
            cfg.rate_window db (announce-ne-chat a b))
  passes_lem a (chats b ∷ xs) db h = elim (Bool-cases (b == a)) [
    | inl q ↦ rw q (
        subst
          (λ c.
            (if (chat_check c db).0.0
              then passes v cfg a xs (chat_check c db).1 + 1
              else passes v cfg a xs (chat_check c db).1)
            ≡ min (tries a xs + 1) (cfg.chat_rate - counted v cfg a db))
          (sym (==_sound b a q))
          (own_check a (tries a xs) (passes v cfg a xs (chat_check a db).1) db h
            (passes_lem a xs (chat_check a db).1 h)))
    | inr q ↦ rw q (
        passes_lem a xs _ h
        ∙ ap (λ c. min (tries a xs) (cfg.chat_rate - counter c))
            (rate_check_frame v laws chat_kind b (rate_key chat_kind a) cfg.chat_rate
              cfg.rate_window db (chat-ne-chat a b (ne_of_== b a q))))
  ]
