-- ===== src/Organization/Numbers.antt =====
-- core/id_generator.py: the numbers that are drawn.
use incident.Prelude.{
  ℕ, zero, suc, ◌+◌, ◌*◌, ◌<◌, Bool, true, false, ◌++◌, ◌≡◌, ◌⊎◌, inl, inr, refl, ap, ◌∙◌, exists,
  length, All, Memᴰ, Bool-split, Text, codes, truthy, arith,
}
use incident.Session.{Tables, ok, err, runtime_error}
use incident.Ingest.{has_number}
use incident.Organization.{
  base_chars, random_part, generate_incident_number, attempts, generate_unique_incident_number,
}

-- INC- and eight of the characters.
pub record IsNumber (s : Text) : Type 0 where
  pub part : Text
  pub prefixed : s ≡ codes "INC-" ++ part
  pub eight : length part ≡ 8
  pub drawn_from : All (λ c. Memᴰ c base_chars) part

module _ (choice : Text → ℕ → ℕ)
    (from : (s : Text) (drawn : ℕ) → truthy s ≡ true → Memᴰ (choice s drawn) s) where
  drawn-All : (n drawn : ℕ) → All (λ c. Memᴰ c base_chars) (random_part choice n drawn)
  unfolding random_part
  drawn-All zero drawn = tt
  drawn-All (suc n) drawn = (from base_chars drawn refl, drawn-All n (drawn + 1))

  generate-IsNumber : (drawn : ℕ) → IsNumber (generate_incident_number choice drawn)
  unfolding generate_incident_number random_part
  generate-IsNumber drawn = record {
    part = random_part choice 8 drawn;
    prefixed = refl;
    eight = refl;
    drawn_from = drawn-All 8 drawn;
  }

  abbrev pub is_taken : Tables → ℕ → Bool
  is_taken t drawn = exists (has_number (generate_incident_number choice drawn)) t.incidents

  -- What comes of the attempts: the first number drawn that is free, or none of those drawn is.
  abbrev pub Drawn : Tables → ℕ → ℕ → Type 0
  Drawn t left drawn =
      ((k : ℕ) × (k < left)
        × (attempts choice t left drawn ≡ ok (generate_incident_number choice (drawn + 8 * k)))
        × (is_taken t (drawn + 8 * k) ≡ false)
        × ((i : ℕ) → i < k → is_taken t (drawn + 8 * i) ≡ true)
        × IsNumber (generate_incident_number choice (drawn + 8 * k)))
      ⊎ ((attempts choice t left drawn ≡ err runtime_error)
          × ((i : ℕ) → i < left → is_taken t (drawn + 8 * i) ≡ true))

  all_taken :
      (t : Tables) (left drawn : ℕ)
      → is_taken t drawn ≡ true
      → ((i : ℕ) → i < left → is_taken t (drawn + 8 + 8 * i) ≡ true)
      → (i : ℕ) → i < suc left
      → is_taken t (drawn + 8 * i) ≡ true
  all_taken t left drawn e k zero h =
      let same : drawn + 8 * 0 ≡ drawn = omega arith in ap (is_taken t) same ∙ e
  all_taken t left drawn e k (suc i) h =
      let same : drawn + 8 * suc i ≡ drawn + 8 + 8 * i = omega arith in
      ap (is_taken t) same ∙ k i (omega arith)

  attempts-Drawn : (t : Tables) (left drawn : ℕ) → Drawn t left drawn
  unfolding attempts
  attempts-Drawn t zero drawn = inr (refl, λ i h. absurd (omega arith))
  attempts-Drawn t (suc left) drawn =
      Bool-split (is_taken t drawn)
        (λ e. elim (attempts-Drawn t left (drawn + 8)) [
          | inl (k, few, h, f, before, n) ↦
              let same : drawn + 8 * suc k ≡ drawn + 8 + 8 * k = omega arith in
              inl (
                suc k,
                omega (arith, few),
                rw (e, same) h,
                rw same f,
                all_taken t k drawn e before,
                generate-IsNumber (drawn + 8 * suc k),
              )
          | inr (h, k) ↦ inr (rw e h, all_taken t left drawn e k)
        ])
        (λ e.
          let same : drawn + 8 * 0 ≡ drawn = omega arith in
          inl (
            0,
            omega arith,
            rw (e, same) refl,
            rw same e,
            λ i h. absurd (omega (arith, h)),
            generate-IsNumber (drawn + 8 * 0),
          ))

  -- With a choice that picks from what it is given, a call draws at most ten numbers of the form
  -- INC-XXXXXXXX, of the thirty-two characters, each from the next eight choices: it returns the first
  -- that no incident has, or raises, and then each of the ten is an incident's.
  pub generate_unique-Terminates :
      (t : Tables) (drawn : ℕ)
      → ((k : ℕ) × (k < 10)
          × (generate_unique_incident_number choice t drawn
              ≡ ok (generate_incident_number choice (drawn + 8 * k)))
          × (is_taken t (drawn + 8 * k) ≡ false)
          × ((i : ℕ) → i < k → is_taken t (drawn + 8 * i) ≡ true)
          × IsNumber (generate_incident_number choice (drawn + 8 * k)))
        ⊎ ((generate_unique_incident_number choice t drawn ≡ err runtime_error)
            × ((i : ℕ) → i < 10 → is_taken t (drawn + 8 * i) ≡ true))
  unfolding generate_unique_incident_number
  generate_unique-Terminates t drawn = attempts-Drawn t 10 drawn
