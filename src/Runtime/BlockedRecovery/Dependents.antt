-- ===== src/Runtime/BlockedRecovery/Dependents.antt =====
-- The candidates as the read-only search sees them: each with its dependents only.
use millrace_rs.Base.{
  String, ◌==◌, ◌≡◌, refl, sym, ◌∙◌, ap, inl, inr, Bool, Bool-cases, Option, none, some, unwrap_or,
  List, [], ◌∷◌,
}
use millrace_rs.Base.Dict.{lookup, insert}
use millrace_rs.Base.Oldest.{oldest, sort_with, insert_by, first}
use millrace_rs.Base.Sort.{text_lt}
use millrace_rs.Runtime.BlockedRecovery.Stranded.{
  CandidateParts, Candidates, Sides, add_dependent, add_candidate, root_mismatch, insert_id,
}
use millrace_rs.Runtime.BlockedRecovery.Find.{Gathered, gather}

-- The dependents of each candidate.
unfoldable pub dependents_of : Candidates → List (String × List String)
dependents_of [] = []
dependents_of ((id, parts) ∷ candidates) =
    (id, parts.queued_dependent_ids) ∷ dependents_of candidates

dependents_of-insert :
    (id : String) (parts : CandidateParts) (candidates : Candidates)
    → dependents_of (insert id parts candidates)
      ≡ insert id parts.queued_dependent_ids (dependents_of candidates)
unfolding dependents_of insert
dependents_of-insert id parts [] = refl
dependents_of-insert id parts ((j, p) ∷ candidates) = elim (Bool-cases (j == id)) [
  | inl e ↦ rw e refl
  | inr e ↦
      rw e (ap (λ l. (j, p.queued_dependent_ids) ∷ l) (dependents_of-insert id parts candidates))
]

ids_of : Option CandidateParts → List String
ids_of none = []
ids_of (some parts) = parts.queued_dependent_ids

lookup-dependents_of :
    (id : String) (candidates : Candidates)
    → unwrap_or (lookup id (dependents_of candidates)) [] ≡ ids_of (lookup id candidates)
unfolding dependents_of lookup ids_of
lookup-dependents_of id [] = refl
lookup-dependents_of id ((j, p) ∷ candidates) = elim (Bool-cases (j == id)) [
  | inl e ↦ rw e refl
  | inr e ↦ rw e (lookup-dependents_of id candidates)
]

pub gather-add_candidate :
    (id : String) (blocked_root queued_root : Option String) (queued_id : String) (g : Gathered)
    (sides : Sides)
    → g.dependents ≡ dependents_of sides.0
    → (gather id blocked_root queued_root queued_id g).dependents
      ≡ dependents_of (add_candidate id blocked_root queued_root queued_id sides).0
unfolding gather add_candidate add_dependent ids_of
gather-add_candidate id blocked_root queued_root queued_id g (compatible, incompatible) h =
    elim (Bool-cases (root_mismatch queued_root blocked_root)) [
      | inl m ↦ rw m h
      | inr m ↦ rw (m, h) (added (lookup id compatible) refl)
    ]
  where
    added :
        (o : Option CandidateParts)
        → lookup id compatible ≡ o
        → insert id
            (insert_id queued_id (unwrap_or (lookup id (dependents_of compatible)) []))
            (dependents_of compatible)
          ≡ dependents_of (add_dependent id blocked_root queued_root queued_id compatible)
    added none e =
        rw (lookup-dependents_of id compatible, e) (sym (dependents_of-insert id _ compatible))
    added (some parts) e =
        rw (lookup-dependents_of id compatible, e) (sym (dependents_of-insert id _ compatible))

-- The first of the candidates, as the read-only search sees it.
abbrev pub dependents_first : Option (String × CandidateParts) → Option (String × List String)
dependents_first none = none
dependents_first (some (id, parts)) = some (id, parts.queued_dependent_ids)

abbrev pub id_before : {A : Type 0} → String × A → String × A → Bool
id_before a b = text_lt a.0 b.0

dependents_of-insert_by :
    (c : String × CandidateParts) (candidates : Candidates)
    → dependents_of (insert_by id_before c candidates)
      ≡ insert_by id_before (c.0, c.1.queued_dependent_ids) (dependents_of candidates)
unfolding dependents_of insert_by
dependents_of-insert_by c [] = refl
dependents_of-insert_by c (d ∷ candidates) = elim (Bool-cases (text_lt d.0 c.0)) [
  | inl e ↦
      rw e (ap (λ l. (d.0, d.1.queued_dependent_ids) ∷ l) (dependents_of-insert_by c candidates))
  | inr e ↦ rw e refl
]

dependents_of-sort_with :
    (candidates : Candidates)
    → dependents_of (sort_with id_before candidates)
      ≡ sort_with id_before (dependents_of candidates)
unfolding dependents_of sort_with
dependents_of-sort_with [] = refl
dependents_of-sort_with (c ∷ candidates) =
    dependents_of-insert_by c (sort_with id_before candidates)
    ∙ ap (λ l. insert_by id_before (c.0, c.1.queued_dependent_ids) l)
        (dependents_of-sort_with candidates)

pub oldest-dependents_of :
    (candidates : Candidates)
    → oldest id_before (dependents_of candidates) ≡ dependents_first (oldest id_before candidates)
unfolding oldest dependents_of
oldest-dependents_of candidates =
    rw (← dependents_of-sort_with candidates) (on (sort_with id_before candidates))
  where
    on : (cs : Candidates) → first (dependents_of cs) ≡ dependents_first (first cs)
    on [] = refl
    on (c ∷ cs) = refl
