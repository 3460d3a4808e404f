-- ===== src/Terminal/Keys/Erase.antt =====
-- adapter/bubbletea/key_router.go: what was typed can be erased.
use a2ui_persistent_daemon.Base.{
  ℕ, zero, suc, ◌+◌, ◌≤◌, ◌<◌, ◌≡◌, refl, sym, ap, ◌∙◌, some, List, [], ◌∷◌, ◌++◌, length,
  length-append, take, drop, arith, append_assoc,
}
use a2ui_persistent_daemon.Terminal.Keys.Router.{
  backspace, runes, clamp, caret_in, inserted, handle_input_key, erased,
}
use a2ui_persistent_daemon.Terminal.Keys.Input.{Field, press, called, length-take, caret_in-le}

-- Backspace, as often as this.
abbrev pub erase : ℕ → Field → Field
erase zero f = f
erase (suc n) f = erase n (press f backspace)

take-drop : (n : ℕ) (xs : List ℕ) → take n xs ++ drop n xs ≡ xs
take-drop zero xs = refl
take-drop (suc n) [] = refl
take-drop (suc n) (x ∷ xs) = ap (λ r. x ∷ r) (take-drop n xs)

take_shorter : (i : ℕ) (xs ys : List ℕ) → i < length xs → take i (take (suc i) xs ++ ys) ≡ take i xs
take_shorter i [] ys h = absurd (omega (arith, h))
take_shorter zero (x ∷ xs) ys h = refl
take_shorter (suc i) (x ∷ xs) ys h = ap (λ r. x ∷ r) (take_shorter i xs ys (omega (arith, h)))

drop_taken : (i : ℕ) (xs ys : List ℕ) → i ≤ length xs → drop i (take i xs ++ ys) ≡ ys
drop_taken zero xs ys h = refl
drop_taken (suc i) [] ys h = absurd (omega (arith, h))
drop_taken (suc i) (x ∷ xs) ys h = drop_taken i xs ys (omega (arith, h))

abbrev at : List ℕ → ℕ → Field
at value caret = record { value = value; caret = some caret }

press_backspace :
    (i : ℕ) (xs ys : List ℕ)
    → i < length xs
    → press (at (take (suc i) xs ++ ys) (suc i)) backspace ≡ at (take i xs ++ ys) i
unfolding handle_input_key
press_backspace i xs ys h =
    ap (λ k. record { value = called text (erased text k).1; caret = some (erased text k).0 })
      {x = clamp (suc i) (length text)} {y = suc i} in_text
    ∙ ap (λ v. at v i)
        (ap (λ t. t ++ drop (suc i) text) (take_shorter i xs ys h)
          ∙ ap (λ t. take i xs ++ t) (drop_taken (suc i) xs ys (omega (arith, h))))
  where
    text : List ℕ
    text = take (suc i) xs ++ ys

    in_text : clamp (suc i) (length text) ≡ suc i
    in_text =
        ground
          (arith, length-append (take (suc i) xs) ys, length-take (suc i) xs (omega (arith, h)))

erase_lem :
    (n c : ℕ) (xs ys : List ℕ)
    → c + n ≤ length xs
    → erase n (at (take (c + n) xs ++ ys) (c + n)) ≡ at (take c xs ++ ys) c
erase_lem zero c xs ys h = ap (λ k. at (take k xs ++ ys) k) (omega arith)
erase_lem (suc n) c xs ys h =
    ap (λ k. erase n (press (at (take k xs ++ ys) k) backspace)) {x = c + suc n} {y = suc (c + n)}
      (omega arith)
    ∙ ap (erase n) (press_backspace (c + n) xs ys (omega (arith, h)))
    ∙ erase_lem n c xs ys (omega (arith, h))

take_all : (n : ℕ) (xs : List ℕ) → length xs ≡ n → take n xs ≡ xs
take_all zero [] h = refl
take_all zero (x ∷ xs) h = absurd (omega (arith, h))
take_all (suc n) [] h = refl
take_all (suc n) (x ∷ xs) h = ap (λ r. x ∷ r) (take_all n xs (omega (arith, h)))

take_first : (n : ℕ) (xs ys : List ℕ) → n ≤ length xs → take n (take n xs ++ ys) ≡ take n xs
take_first zero xs ys h = refl
take_first (suc n) [] ys h = absurd (omega (arith, h))
take_first (suc n) (x ∷ xs) ys h = ap (λ r. x ∷ r) (take_first n xs ys (omega (arith, h)))

inserted-erase :
    (c : ℕ) (value new : List ℕ)
    → c ≤ length value
    → erase (length new) (at (inserted value c new) (c + length new)) ≡ at value c
inserted-erase c value new h =
    ap (λ v. erase m (at v (c + m))) (sym (append_assoc (take c value) new (drop c value)))
    ∙ ap (λ v. erase m (at (v ++ drop c value) (c + m))) (sym (take_all (c + m) xs full))
    ∙ erase_lem m c xs (drop c value) (omega (arith, full))
    ∙ ap (λ v. at (v ++ drop c value) c) (take_first c value new h)
    ∙ ap (λ v. at v c) (take-drop c value)
  where
    m : ℕ
    m = length new

    xs : List ℕ
    xs = take c value ++ new

    full : length xs ≡ c + m
    full = omega (arith, length-append (take c value) new, length-take c value h)

-- Typing a text into an input, wherever the caret is, and then pressing backspace as often as the text has code
-- points gives the value from before, with the caret where it was.
pub typed-erase :
    (f : Field) (new : List ℕ)
    → erase (length new) (press f (runes new))
      ≡ record { value = f.value; caret = some (caret_in f.caret f.value) }
unfolding handle_input_key
typed-erase f [] = refl
typed-erase f (r ∷ rs) =
    inserted-erase (caret_in f.caret f.value) f.value (r ∷ rs) (caret_in-le f.caret f.value)
