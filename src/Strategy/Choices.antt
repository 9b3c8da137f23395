-- ===== src/Strategy/Choices.antt =====
-- Whom the strategies choose.
use native.Mathlib.Nat.{mod-lt}
use incident.Prelude.{
  ℕ, ◌+◌, ◌%◌, ◌≤◌, ◌<◌, Bool, false, ◌||◌, Option, none, some, List, [], ◌∷◌, ◌≡◌, ◌∙◌, refl, ap,
  arith, Memᴰ, Bool-split, length, length-sort, get_elem?_total, mem-get_elem?, is_empty, select,
  mem-select, sort, mem-sort, min_from, mem-min_from, IsOrder, Text, text_le-total, text_le_trans,
}
use incident.Models.{Employee, Incident}
use incident.Session.{Tables, Result, ok}
use incident.Eligibility.{has_skills}
use incident.Strategy.{
  Strategy, round_robin, least_workload, skill_based, other, get_required_skills,
  get_last_assigned_employee, name_key, by_name, by_load, by_match, min_of, or_index_error,
  at_index, next_place, pick_least_workload, rotate, pick_round_robin, pick_skill_based,
  pick_skill_plus_workload, apply_strategy,
}

-- The result is one of the candidates.
abbrev pub Chooses : List Employee → Result Employee → Type 0
Chooses emps r = (e : Employee) × (r ≡ ok e) × Memᴰ e emps

min_of-Chooses :
    (le : Employee → Employee → Bool) (emps : List Employee)
    → is_empty emps ≡ false
    → Chooses emps (min_of le emps)
unfolding min_of
min_of-Chooses le [] h = cc
min_of-Chooses le (e ∷ emps) h = (min_from le e emps, refl, mem-min_from le e emps)

at_index-Chooses : (emps : List Employee) (i : ℕ) → i < length emps → Chooses emps (at_index emps i)
unfolding at_index or_index_error
at_index-Chooses emps i h =
    let (e, at) = get_elem?_total emps i h in (e, ap or_index_error at, mem-get_elem? emps i at)

next_place-le : (last : ℕ) (emps : List Employee) (i : ℕ) → next_place last emps i ≤ i + length emps
unfolding next_place
next_place-le last [] i = omega arith
next_place-le last (e ∷ emps) i = ground (arith, next_place-le last emps (i + 1))

is_empty-length {ℓ} : {A : Type ℓ} (xs : List A) → is_empty xs ≡ false → 0 < length xs
is_empty-length [] h = cc
is_empty-length (x ∷ xs) h = omega arith

is_empty-same {ℓ} :
    {A : Type ℓ} (xs ys : List A) → length xs ≡ length ys → is_empty xs ≡ is_empty ys
is_empty-same [] [] h = refl
is_empty-same [] (y ∷ ys) h = absurd (omega arith)
is_empty-same (x ∷ xs) [] h = absurd (omega arith)
is_empty-same (x ∷ xs) (y ∷ ys) h = refl

rotate-Chooses :
    (sorted : List Employee) (last : Option ℕ)
    → is_empty sorted ≡ false
    → Chooses sorted (rotate sorted last)
unfolding rotate
rotate-Chooses sorted none h = at_index-Chooses sorted 0 (is_empty-length sorted h)
rotate-Chooses sorted (some last) h = rw h (
    at_index-Chooses sorted (next_place last sorted 0 % length sorted)
      (mod-lt (next_place last sorted 0) (is_empty-length sorted h)))

Chooses-sort :
    (le : Employee → Employee → Bool) (emps : List Employee) {r : Result Employee}
    → Chooses (sort le emps) r
    → Chooses emps r
Chooses-sort le emps (e, found, m) = (e, found, mem-sort le emps m)

module _ (str_id : ℕ → Text) where
  pub by_load-IsOrder : (t : Tables) → IsOrder (by_load str_id t)
  unfolding by_load
  by_load-IsOrder t = record {
    total = λ a b h. ground (arith, text_le-total (name_key str_id a) (name_key str_id b));
    trans = λ a b c h k.
        ground (arith, text_le_trans (name_key str_id a) (name_key str_id b) (name_key str_id c));
  }

  pub by_match-IsOrder : (t : Tables) (required : List ℕ) → IsOrder (by_match str_id t required)
  unfolding by_match
  by_match-IsOrder t required = record {
    total = λ a b h. ground (arith, text_le-total (name_key str_id a) (name_key str_id b));
    trans = λ a b c h k.
        ground (arith, text_le_trans (name_key str_id a) (name_key str_id b) (name_key str_id c));
  }

  -- With candidates at hand every strategy chooses one of them.
  pub apply_strategy-Chooses :
      (strategy : Strategy) (t : Tables) (eligible : List Employee) (inc : Incident)
      → is_empty eligible ≡ false
      → Chooses eligible (apply_strategy str_id strategy t eligible inc)
  unfolding apply_strategy pick_round_robin pick_least_workload pick_skill_based
      pick_skill_plus_workload
  apply_strategy-Chooses round_robin t eligible inc h =
      let sorted : List Employee = sort (by_name str_id) eligible in
      Chooses-sort (by_name str_id) eligible (
        rotate-Chooses sorted (get_last_assigned_employee t)
          (is_empty-same sorted eligible (length-sort (by_name str_id) eligible) ∙ h))
  apply_strategy-Chooses least_workload t eligible inc h =
      min_of-Chooses (by_load str_id t) eligible h
  apply_strategy-Chooses skill_based t eligible inc h =
      Bool-split (is_empty (get_required_skills t inc.id)) (λ e. rw e (first (by_name str_id)))
        (λ e. rw e (first (by_match str_id t (get_required_skills t inc.id))))
    where
      first : (le : Employee → Employee → Bool) → Chooses eligible (at_index (sort le eligible) 0)
      first le = Chooses-sort le eligible (
          at_index-Chooses (sort le eligible) 0 (
            is_empty-length (sort le eligible)
              (is_empty-same (sort le eligible) eligible (length-sort le eligible) ∙ h)))
  apply_strategy-Chooses other t eligible inc h =
      let required = get_required_skills t inc.id in
      let skilled = select (has_skills t required) eligible in
      Bool-split (is_empty required || is_empty skilled)
        (λ e. rw e (min_of-Chooses (by_load str_id t) eligible h))
        (λ e. rw e (
          let (x, found, m) = min_of-Chooses (by_load str_id t) skilled (ground arith) in
          (x, found, (mem-select (has_skills t required) eligible m).0)))
