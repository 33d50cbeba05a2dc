-- ===== src/Channel/Roster.antt =====
-- `_fmt_roster`: the rows grouped by project, and the counts of those that the filter dropped.
use muster_chat.Base.{
  ℕ, Bool, ◌&&◌, ◌||◌, List, [], ◌∷◌, ◌++◌, Text, codes, ◌==◌, decimal, eqb, ltb, length, join, map,
  if◌then◌else◌,
}
use muster_chat.Base.Sort.{sort_by}
use muster_chat.Store.Agents.{text_leb, online}
use muster_chat.Ops.Types.{PublicRow}
use muster_chat.Ops.Roster.{Counts, all_statuses}
use muster_chat.Channel.{fmt_agent}

-- The rows of each project, in the order of the dictionary.
abbrev pub Groups : Type 0 → Type 0
Groups Meta = List (Text × List (PublicRow Meta))

module _ {Meta : Type 0} where
  -- `by_project.setdefault(p, []).append(a)`
  unfoldable pub put_row : Text → PublicRow Meta → Groups Meta → Groups Meta
  put_row p a [] = (p, a ∷ []) ∷ []
  put_row p a ((q, as') ∷ gs) =
      let rest = put_row p a gs in if q == p then (q, as' ++ a ∷ []) ∷ gs else (q, as') ∷ rest

  -- the loop over the agents
  unfoldable pub by_project : List (PublicRow Meta) → Groups Meta → Groups Meta
  unfolding put_row
  by_project [] gs = gs
  by_project (a ∷ agents) gs = by_project agents (put_row a.project a gs)

  -- the projects in order, and the rows of each in the order of their addresses
  unfoldable pub sections : List (PublicRow Meta) → Groups Meta
  sections agents =
      map (λ (p, rows). (p, sort_by (λ a b. text_leb a.addr b.addr) rows))
        (sort_by (λ (p, _) (q, _). text_leb p q) (by_project agents []))

  unfoldable section_lines : (Meta → Text) → ℕ → Bool → Groups Meta → List Text
  section_lines branch now show_status [] = []
  section_lines branch now show_status ((p, rows) ∷ gs) =
      (p ++ codes ":") ∷ map (fmt_agent branch now show_status) rows
      ++ section_lines branch now show_status gs

-- `sorted(hidden.items(), key=lambda kv: (-kv[1], kv[0]))`
unfoldable sort_hidden : Counts → Counts
sort_hidden = sort_by (λ (p, n) (q, m). ltb m n || eqb n m && text_leb p q)

-- the line of the counts
unfoldable hidden_lines : Counts → Text → List Text
unfolding sort_hidden
hidden_lines [] status = []
hidden_lines (h ∷ hs) status =
    ((if status == online then codes "Offline" else codes "Online")
      ++ (codes ": "
          ++ (join (codes " · ")
                (map (λ (p, n). p ++ (codes " ×" ++ decimal n)) (sort_hidden (h ∷ hs)))
              ++ codes " — roster {\"status\":\"all\"} or {\"project\":\"…\"} to list them")))
    ∷ []

unfoldable label_of : Text → Text
label_of status = if status == all_statuses then codes "visible" else status

module _ {Meta : Type 0} (agent : Text) (branch : Meta → Text) (now : ℕ) where
  unfoldable roster_head : List (PublicRow Meta) → Text → Text
  unfolding label_of
  roster_head [] status =
      codes "You are \""
      ++ (agent ++ (codes "\". No " ++ (label_of status ++ codes " agents visible.")))
  roster_head (a ∷ agents) status =
      codes "You are \""
      ++ (agent
          ++ (codes "\". "
              ++ (decimal (length (a ∷ agents))
                  ++ (codes " " ++ (label_of status ++ codes " agent(s):")))))

  unfoldable roster_lines : List (PublicRow Meta) → Counts → Text → List Text
  unfolding roster_head sections section_lines hidden_lines
  roster_lines agents hidden status =
      roster_head agents status
        ∷ section_lines branch now (status == all_statuses) (sections agents)
      ++ hidden_lines hidden status

  -- `_fmt_roster`
  unfoldable pub fmt_roster : List (PublicRow Meta) → Counts → Text → Text
  unfolding roster_lines
  fmt_roster agents hidden status = join (b'\n' ∷ []) (roster_lines agents hidden status)
