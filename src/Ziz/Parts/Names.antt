-- ===== src/Ziz/Parts/Names.antt =====
-- The names of the parts.
use web_scraper.Base.{
  ℕ, zero, suc, ◌-◌, ◌≡◌, ◌≢◌, refl, sym, ap, ◌∙◌, [], ◌∷◌, ◌++◌, Text, codes, arith, length,
  length-append,
}
use web_scraper.Go.Strconv.{decimal}
use web_scraper.Go.Strconv.Decimal.{number_from, number_from-decimal}
use web_scraper.Ziz.Parts.{zeros, five_digits, part_name, temporary}

number_from-zeros : (n : ℕ) (s : Text) → number_from 0 (zeros n ++ s) ≡ number_from 0 s
number_from-zeros zero s = refl
number_from-zeros (suc n) s = number_from-zeros n s

number_from-five_digits : (n : ℕ) → number_from 0 (five_digits n) ≡ n
unfolding five_digits
number_from-five_digits n =
    number_from-zeros (5 - length (decimal n n)) (decimal n n)
    ∙ number_from-decimal n n (omega arith)

append_cancel : (xs ys s : Text) → xs ++ s ≡ ys ++ s → xs ≡ ys
append_cancel [] [] s e = refl
append_cancel [] (y ∷ ys) s e = absurd (omega (arith, ap length e, length-append ys s))
append_cancel (x ∷ xs) [] s e = absurd (omega (arith, ap length e, length-append xs s))
append_cancel (x ∷ xs) (y ∷ ys) s e =
    let h : x ≡ y = cc in let t : xs ≡ ys = append_cancel xs ys s (cc) in cc

five_digits-part_name : (a b : ℕ) → part_name a ≡ part_name b → five_digits a ≡ five_digits b
unfolding part_name
five_digits-part_name a b e = append_cancel (five_digits a) (five_digits b) (codes ".jsonl.gz") (cc)

-- Two pages never share a part: pages with the same name are the same page.
pub part_name-injective : (a b : ℕ) → part_name a ≡ part_name b → a ≡ b
part_name-injective a b e =
    sym (number_from-five_digits a)
    ∙ ap (number_from 0) (five_digits-part_name a b e)
    ∙ number_from-five_digits b

last : Text → ℕ
last [] = 0
last (c ∷ []) = c
last (c ∷ d ∷ s) = last (d ∷ s)

last-append : (xs : Text) (c : ℕ) (s : Text) → last (xs ++ c ∷ s) ≡ last (c ∷ s)
unfolding last
last-append [] c s = refl
last-append (x ∷ []) c s = refl
last-append (x ∷ y ∷ xs) c s = last-append (y ∷ xs) c s

last-part_name : (a : ℕ) → last (part_name a) ≡ b'z'
unfolding part_name last
last-part_name a = last-append (codes "part-" ++ five_digits a) _ _

last-temporary : (s : Text) → last (temporary s) ≡ b'p'
unfolding last
last-temporary s = last-append s _ _

-- No part has the name of a temporary file.
pub part_name-temporary : (a : ℕ) (s : Text) → part_name a ≢ temporary s
part_name-temporary a s e = absurd (omega (arith, ap last e, last-part_name a, last-temporary s))

pub temporary_ne : (s : Text) → temporary s ≢ s
temporary_ne s e = absurd (omega (arith, ap length e, length-append s (codes ".tmp")))
