-- ===== src/Channel.antt =====
-- plugins/muster/mcp/muster_channel.py: the texts with which the tools of an agent answer it. The
-- agent's own half of its address, the clock, and `meta.get("branch")` of a row are parameters.
pub mod Roster
pub mod Shown
pub mod Tools
pub mod Startup
use muster_chat.Base.{
  ℕ, zero, suc, ◌+◌, ◌-◌, ◌/◌, Bool, true, false, ◌&&◌, not, List, [], ◌∷◌, ◌++◌, Option, none,
  some, Result, ok, err, ℤ, pos, negsuc, Text, codes, ◌==◌, decimal, eqb, leb, is_empty, join, map,
  if◌then◌else◌,
}
use muster_chat.Identity.{slash}
use muster_chat.Store.Agents.{offline}
use muster_chat.Ops.Types.{PublicRow}
use muster_chat.Ops.Chat.{FetchedMessage}
use muster_chat.Bus.{ErrorBody, BusFailure, exception}

-- `addr.split("/", 1)[1]`, where `none` is an `IndexError`
unfoldable pub after_slash : Text → Option Text
after_slash [] = none
after_slash (c ∷ t) = let rest = after_slash t in if eqb c slash then some t else rest

-- `_is_self`
unfoldable pub is_self : {Meta : Type 0} → Text → Text → Result (BusFailure Meta) Bool
is_self agent addr = elim (after_slash addr) [
  | none ↦ err (exception (codes "IndexError"))
  | some half ↦ ok (half == agent)
]

-- `max(0, now - ts)`
unfoldable elapsed : ℕ → ℤ → ℕ
elapsed now (pos t) = now - t
elapsed now (negsuc n) = now + suc n

-- `_age`
unfoldable age : ℕ → ℤ → Text
unfolding elapsed
age now ts =
    let d = elapsed now ts in
    if leb 86400 d
    then decimal (d / 86400) ++ codes "d"
    else if leb 3600 d
    then decimal (d / 3600) ++ codes "h"
    else if leb 60 d
    then decimal (d / 60) ++ codes "m"
    else decimal d ++ codes "s"

-- `ts`, as a truth value
unfoldable is_set : ℤ → Bool
is_set (pos zero) = false
is_set z = true

-- `_fmt_agent`
unfoldable pub fmt_agent : {Meta : Type 0} → (Meta → Text) → ℕ → Bool → PublicRow Meta → Text
unfolding age is_set
fmt_agent branch now show_status a =
    codes "- "
    ++ (a.addr
        ++ ((if show_status then codes " — " ++ a.status else [])
            ++ ((if is_empty (branch a.meta) then [] else codes " @" ++ branch a.meta)
                ++ (if a.status == offline && is_set a.last_connect
                    then codes " (last connect " ++ (age now a.last_connect ++ codes " ago)")
                    else []))))

-- the first text that is not empty
abbrev first_of : Text → Text → Text
first_of s t = if is_empty s then t else s

abbrev addrs_of : {Meta : Type 0} → List (PublicRow Meta) → List Text
addrs_of = map (λ a. a.addr)

-- a list behind its label, where there is something in it
unfoldable pub listed : Text → List Text → Text
listed label [] = []
listed label (t ∷ ts) = label ++ join (codes ", ") (t ∷ ts)

-- `if "retry_after" in p`
unfoldable retry_text : Option ℕ → Text
retry_text none = []
retry_text (some n) = codes " | retry in " ++ (decimal n ++ codes "s")

-- `_fmt_error`
unfoldable pub fmt_error : {Meta : Type 0} → ErrorBody Meta → Text
unfolding listed retry_text
fmt_error e =
    first_of e.message (first_of e.code (codes "bus error"))
    ++ (listed (codes " | visible: ") e.visible
        ++ (listed (codes " | candidates: ") (addrs_of e.candidates) ++ retry_text e.retry_after))

-- `_mail_line`
unfoldable pub mail_line : FetchedMessage → Text
mail_line m =
    codes "["
    ++ (m.ts
        ++ (codes "] "
            ++ ((if m.important then codes "❗ " else [])
                ++ (codes "from "
                    ++ (m.from
                        ++ ((if is_empty m.subject
                              then []
                              else codes " [" ++ (m.subject ++ codes "]"))
                            ++ (codes ": " ++ m.body)))))))
