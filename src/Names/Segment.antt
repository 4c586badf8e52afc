-- ===== src/Names/Segment.antt =====
-- `text.rsplit("-", 1)[-1]`, as src/ai_cli/name_registry.py takes the token of a title.
use Prim.Native.String.{◌++◌ as append}
use Prim.Native.String.append
use Prim.Native.Char.{Char, code}
use ai_cli_utils.Prelude.{
  ℕ, ◌≡◌, refl, ap, ◌∙◌, String, Bool, true, false, not, ◌&&◌, arith, all, eqb, if◌then◌else◌, ◌==◌,
}
use ai_cli_utils.Sessions.Recipe.{codes}
use ai_cli_utils.Rows.{lower}
use ai_cli_utils.Names.Pick.{is_token}

-- what follows the last dash of the second text, and the first text if it has none
unfoldable pub last_part : String → String → String
last_part best String.[] = best
last_part best (String.◌∷◌ c s) = last_part (if eqb (code c) 45 then s else best) s

unfoldable pub last_segment : String → String
unfolding last_part
last_segment s = last_part s s

-- a text of lowercase letters has no dash
no_dash : (c : ℕ) (rest : Bool) → (lower c && rest) ≡ true → (eqb c 45 ≡ false) × (rest ≡ true)
no_dash c rest h = ground arith

last_part-plain : (best s : String) → all lower (codes s) ≡ true → last_part best s ≡ best
unfolding last_part
last_part-plain best String.[] h = refl
last_part-plain best (String.◌∷◌ c s) h =
    (let (e, k) = no_dash (code c) (all lower (codes s)) h in
      ap (λ b. last_part (if b then s else best) s) e ∙ last_part-plain best s k)

last_part-append :
    (best p name : String)
    → all lower (codes name) ≡ true
    → last_part best (append p (append "-" name)) ≡ name
unfolding last_part
last_part-append best String.[] name h =
    (let tail : append "" (append "-" name) ≡ String.◌∷◌ dash name =
        append.nil (append "-" name)
        ∙ append.cons dash "" name
        ∙ ap (String.◌∷◌ dash) (append.nil name) in
      ap (last_part best) tail ∙ last_part-plain name name h)
  where
    dash : Char
    dash = "-"
last_part-append best (String.◌∷◌ c p) name h =
    ap (last_part best) (append.cons c p (append "-" name))
    ∙ last_part-append (if eqb (code c) 45 then append p (append "-" name) else best) p name h

-- The last segment of a text that ends with a dash and a token is the token.
pub last_segment-is_token :
    (p name : String) → is_token name ≡ true → last_segment (append p (append "-" name)) ≡ name
unfolding last_segment
last_segment-is_token p name t =
    last_part-append (append p (append "-" name)) p name
      (letters (not (name == "")) (all lower (codes name)) t)
  where
    letters : (a b : Bool) → (a && b) ≡ true → b ≡ true
    letters a b h = ground arith
