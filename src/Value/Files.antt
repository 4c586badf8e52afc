-- ===== src/Value/Files.antt =====
-- Files by their names: what a read finds after a write or a removal.
use ai_cli_utils.Prelude.{
  ◌≡◌, refl, String, Option, none, some, List, [], ◌∷◌, arith, eq_iff, eq_refl, ◌==◌, if◌then◌else◌,
}

module _ {A : Type 0} where
  abbrev pub lookup : String → List (String × A) → Option A
  lookup k [] = none
  lookup k ((j, d) ∷ rest) = if j == k then some d else lookup k rest

  abbrev pub store_file : String → A → List (String × A) → List (String × A)
  store_file k d [] = (k, d) ∷ []
  store_file k d ((j, e) ∷ rest) = if j == k then (k, d) ∷ rest else (j, e) ∷ store_file k d rest

  abbrev pub unlink : String → List (String × A) → List (String × A)
  unlink k [] = []
  unlink k ((j, d) ∷ rest) =
      let others = unlink k rest in if j == k then others else (j, d) ∷ others

  pub lookup-store_file :
      (k j : String) (d : A) (files : List (String × A))
      → lookup k (store_file j d files) ≡ (if j == k then some d else lookup k files)
  lookup-store_file k j d [] = refl
  lookup-store_file k j d ((i, e) ∷ files) =
      ground (arith, lookup-store_file k j d files, eq_iff i j, eq_iff j k, eq_iff i k)

  pub lookup-store_file_self :
      (k : String) (d : A) (files : List (String × A)) → lookup k (store_file k d files) ≡ some d
  lookup-store_file_self k d files = simp (lookup-store_file, eq_refl)

  pub lookup-unlink :
      (k j : String) (files : List (String × A))
      → lookup k (unlink j files) ≡ (if j == k then none else lookup k files)
  lookup-unlink k j [] = ground arith
  lookup-unlink k j ((i, e) ∷ files) =
      ground (arith, lookup-unlink k j files, eq_iff i j, eq_iff j k, eq_iff i k)

  pub lookup-unlink_self :
      (k : String) (files : List (String × A)) → lookup k (unlink k files) ≡ none
  lookup-unlink_self k files = simp (lookup-unlink, eq_refl)
