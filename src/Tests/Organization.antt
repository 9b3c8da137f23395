-- ===== src/Tests/Organization.antt =====
-- The theorems on the organization and the incident numbers at the sample tables.
use incident.Prelude.{
  ℕ, ◌*◌, ◌+◌, ◌<◌, true, false, [], ◌∷◌, ◌≡◌, ◌⊎◌, refl, truthy, if◌then◌else◌, Text, Memᴰ,
}
use incident.Session.{ok, err, value_error, runtime_error}
use incident.Organization.{
  validate_organization_structure, generate_incident_number, generate_unique_incident_number,
}
use incident.Organization.Validity.{is_valid, report, validate_organization_structure-IsValid}
use incident.Organization.Numbers.{IsNumber, is_taken, generate_unique-Terminates}
use incident.Tests.{tables}

valid_example :
    validate_organization_structure tables
    ≡ (if is_valid tables then report 150 else err value_error)
valid_example = validate_organization_structure-IsValid tables

abbrev pick : Text → ℕ → ℕ
pick [] drawn = 0
pick (c ∷ s) drawn = c

picked : (s : Text) (drawn : ℕ) → truthy s ≡ true → Memᴰ (pick s drawn) s
picked [] drawn h = absurd (cc)
picked (c ∷ s) drawn h = Memᴰ.head refl

terminates_example :
    ((k : ℕ) × (k < 10)
      × (generate_unique_incident_number pick tables 0
          ≡ ok (generate_incident_number pick (0 + 8 * k)))
      × (is_taken pick picked tables (0 + 8 * k) ≡ false)
      × ((i : ℕ) → i < k → is_taken pick picked tables (0 + 8 * i) ≡ true)
      × IsNumber (generate_incident_number pick (0 + 8 * k)))
    ⊎ ((generate_unique_incident_number pick tables 0 ≡ err runtime_error)
        × ((i : ℕ) → i < 10 → is_taken pick picked tables (0 + 8 * i) ≡ true))
terminates_example = generate_unique-Terminates pick picked tables 0
