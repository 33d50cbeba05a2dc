-- ===== src/Channel/Shown.antt =====
-- Which rows the text of a roster shows, and where.
use mathlib.Core.List.{
  Mem, Nodup, Nodup-cons, Nodup-nil, not-mem-nil, mem-cons, mem-cons_of_mem, mem-cons_self, Perm,
  perm_middle, perm_append_comm,
}
use mathlib.Core.Logic.Or
use mathlib.Core.List.Perm as Rearranged
use muster_chat.Base.{
  ◌≡◌, ◌≢◌, refl, sym, ap, Bool, List, [], ◌∷◌, ◌++◌, append_assoc, append-nil, Text, ◌==◌,
  ==_sound, ne_of_==, All, map, Bool-cases, inl, inr,
}
use muster_chat.Base.Sort.{insert_by, sort_by, sort_by-perm, sort_by-All}
use muster_chat.Store.Agents.{text_leb}
use muster_chat.Ops.Types.{PublicRow}
use muster_chat.Channel.Roster.{Groups, put_row, by_project, sections}

not-mem_of : (x y : Text) (l : List Text) → x ≢ y → ¬ Mem x l → ¬ Mem x (y ∷ l)
not-mem_of x y l d h m = Or.elim (λ a b. absurd a) (mem-cons.0 m) d h

module _ {Meta : Type 0} where
  -- all rows of the groups
  abbrev pub rows_in : Groups Meta → List (PublicRow Meta)
  rows_in [] = []
  rows_in ((p, rows) ∷ gs) = rows ++ rows_in gs

  -- The rows of a group are of its project.
  abbrev pub IsGrouped : Groups Meta → Type 0
  IsGrouped = All (λ (p, rows). All (λ a. a.project ≡ p) rows)

  put_row-perm :
      (p : Text) (a : PublicRow Meta) (gs : Groups Meta)
      → Perm (rows_in (put_row p a gs)) (a ∷ rows_in gs)
  unfolding put_row
  put_row-perm p a [] = Rearranged.refl (a ∷ [])
  put_row-perm p a ((q, rows) ∷ gs) = elim (Bool-cases (q == p)) [
    | inl e ↦ rw (e, append_assoc rows (a ∷ []) (rows_in gs)) (perm_middle rows (rows_in gs))
    | inr e ↦ rw e (
        Rearranged.trans (Rearranged.append_left rows (put_row-perm p a gs))
          (perm_middle rows (rows_in gs)))
  ]

  by_project-perm :
      (agents : List (PublicRow Meta)) (gs : Groups Meta)
      → Perm (rows_in (by_project agents gs)) (agents ++ rows_in gs)
  unfolding by_project
  by_project-perm [] gs = Rearranged.refl (rows_in gs)
  by_project-perm (a ∷ agents) gs =
      Rearranged.trans (by_project-perm agents (put_row a.project a gs)) (
        Rearranged.trans (Rearranged.append_left agents (put_row-perm a.project a gs))
          (perm_middle agents (rows_in gs)))

  insert_by-rows :
      (le : Text × List (PublicRow Meta) → Text × List (PublicRow Meta) → Bool)
      (g : Text × List (PublicRow Meta)) (gs : Groups Meta)
      → Perm (rows_in (insert_by le g gs)) (g.1 ++ rows_in gs)
  unfolding insert_by
  insert_by-rows le g [] = Rearranged.refl (g.1 ++ [])
  insert_by-rows le g ((q, rows) ∷ gs) = elim (Bool-cases (le g (q, rows))) [
    | inl e ↦ rw e (Rearranged.refl (g.1 ++ (rows ++ rows_in gs)))
    | inr e ↦ rw e (
        Rearranged.trans (Rearranged.append_left rows (insert_by-rows le g gs)) (
          rw (← append_assoc rows g.1 (rows_in gs), ← append_assoc g.1 rows (rows_in gs))
            (Rearranged.append_right (rows_in gs) (perm_append_comm rows g.1))))
  ]

  sort_by-rows :
      (le : Text × List (PublicRow Meta) → Text × List (PublicRow Meta) → Bool) (gs : Groups Meta)
      → Perm (rows_in (sort_by le gs)) (rows_in gs)
  unfolding sort_by
  sort_by-rows le [] = Rearranged.refl []
  sort_by-rows le (g ∷ gs) =
      Rearranged.trans (insert_by-rows le g (sort_by le gs))
        (Rearranged.append_left g.1 (sort_by-rows le gs))

  append-project :
      (p : Text) (a : PublicRow Meta) (rows : List (PublicRow Meta))
      → a.project ≡ p
      → All (λ b. b.project ≡ p) rows
      → All (λ b. b.project ≡ p) (rows ++ a ∷ [])
  append-project p a [] h hs = (h, tt)
  append-project p a (b ∷ rows) h (hb, hs) = (hb, append-project p a rows h hs)

  put_row-IsGrouped :
      (a : PublicRow Meta) (gs : Groups Meta) → IsGrouped gs → IsGrouped (put_row a.project a gs)
  unfolding put_row
  put_row-IsGrouped a [] h = ((refl, tt), tt)
  put_row-IsGrouped a ((q, rows) ∷ gs) (h, hs) = elim (Bool-cases (q == a.project)) [
    | inl e ↦ rw e (append-project q a rows (sym (==_sound q a.project e)) h, hs)
    | inr e ↦ rw e (h, put_row-IsGrouped a gs hs)
  ]

  by_project-IsGrouped :
      (agents : List (PublicRow Meta)) (gs : Groups Meta)
      → IsGrouped gs
      → IsGrouped (by_project agents gs)
  unfolding by_project
  by_project-IsGrouped [] gs h = h
  by_project-IsGrouped (a ∷ agents) gs h =
      by_project-IsGrouped agents (put_row a.project a gs) (put_row-IsGrouped a gs h)

  abbrev pub projects : Groups Meta → List Text
  projects = map (λ (p, rows). p)

  not-mem-put_row :
      (x p : Text) (a : PublicRow Meta) (gs : Groups Meta)
      → x ≢ p
      → ¬ Mem x (projects gs)
      → ¬ Mem x (projects (put_row p a gs))
  unfolding put_row
  not-mem-put_row x p a [] d h m = not-mem_of x p [] d h m
  not-mem-put_row x p a ((q, rows) ∷ gs) d h m = elim (Bool-cases (q == p)) [
    | inl e ↦ h (rw e at m)
    | inr e ↦
        not-mem_of x q (projects (put_row p a gs)) (λ same. h (rw same mem-cons_self))
          (not-mem-put_row x p a gs d (λ n. h (mem-cons_of_mem q n))) (rw e at m)
  ]

  put_row-Nodup :
      (p : Text) (a : PublicRow Meta) (gs : Groups Meta)
      → Nodup (projects gs)
      → Nodup (projects (put_row p a gs))
  unfolding put_row
  put_row-Nodup p a [] h = Nodup-cons.1 (not-mem-nil, Nodup-nil)
  put_row-Nodup p a ((q, rows) ∷ gs) h = elim (Bool-cases (q == p)) [
    | inl e ↦ rw e h
    | inr e ↦ rw e (
        Nodup-cons.1 (
          not-mem-put_row q p a gs (ne_of_== q p e) (Nodup-cons.0 h).0,
          put_row-Nodup p a gs (Nodup-cons.0 h).1,
        ))
  ]

  by_project-Nodup :
      (agents : List (PublicRow Meta)) (gs : Groups Meta)
      → Nodup (projects gs)
      → Nodup (projects (by_project agents gs))
  unfolding by_project
  by_project-Nodup [] gs h = h
  by_project-Nodup (a ∷ agents) gs h =
      by_project-Nodup agents (put_row a.project a gs) (put_row-Nodup a.project a gs h)

  -- the sections before the rows of each are sorted
  abbrev grouped : List (PublicRow Meta) → Groups Meta
  grouped agents = sort_by (λ (p, _) (q, _). text_leb p q) (by_project agents [])

  abbrev sort_rows : List (PublicRow Meta) → List (PublicRow Meta)
  sort_rows = sort_by (λ a b. text_leb a.addr b.addr)

  abbrev sort_each : Groups Meta → Groups Meta
  sort_each = map (λ (p, rows). (p, sort_rows rows))

  sort_each-perm : (gs : Groups Meta) → Perm (rows_in (sort_each gs)) (rows_in gs)
  sort_each-perm [] = Rearranged.refl []
  sort_each-perm ((p, rows) ∷ gs) =
      Rearranged.append (sort_by-perm (λ a b. text_leb a.addr b.addr) rows) (sort_each-perm gs)

  sort_each-IsGrouped : (gs : Groups Meta) → IsGrouped gs → IsGrouped (sort_each gs)
  sort_each-IsGrouped [] h = tt
  sort_each-IsGrouped ((p, rows) ∷ gs) (h, hs) =
      (sort_by-All _ (λ a. a.project ≡ p) rows h, sort_each-IsGrouped gs hs)

  sort_each-projects : (gs : Groups Meta) → projects (sort_each gs) ≡ projects gs
  sort_each-projects [] = refl
  sort_each-projects ((p, rows) ∷ gs) = ap (λ l. p ∷ l) (sort_each-projects gs)

  -- The sections of a roster show each of the agents once, under a heading that is its project, and
  -- no project has two headings.
  pub sections_lem :
      (agents : List (PublicRow Meta))
      → Perm (rows_in (sections agents)) agents
        × IsGrouped (sections agents)
        × Nodup (projects (sections agents))
  unfolding sections
  sections_lem agents = (
    Rearranged.trans (sort_each-perm (grouped agents)) (
        Rearranged.trans (sort_by-rows _ (by_project agents []))
          (rw (append-nil agents) at (by_project-perm agents []))),
    sort_each-IsGrouped (grouped agents)
        (sort_by-All _ _ (by_project agents []) (by_project-IsGrouped agents [] tt)),
    rw (sort_each-projects (grouped agents)) (
        Rearranged.nodup
          (Rearranged.symm
            (Rearranged.map (λ (p, rows). p) (sort_by-perm _ (by_project agents []))))
          (by_project-Nodup agents [] Nodup-nil)),
  )
