-- ===== src/Totempg/Stream.antt =====
-- What lengths and bytes in a packet of exec/totempg.c stand for, behind the part of a message that came
-- before.
use corosync.Prelude.{
  ℕ, zero, suc, ◌+◌, ◌≤◌, ◌≡◌, refl, ap, ◌∙◌, sym, List, [], ◌∷◌, ◌++◌, length, take, drop, sum,
  arith,
}
use mathlib.Core.List.{append_assoc}

-- The messages that end within the bytes.
unfoldable pub messages : List ℕ → List ℕ → List ℕ → List (List ℕ)
messages before [] bytes = []
messages before (l ∷ lens) bytes = (before ++ take l bytes) ∷ messages [] lens (drop l bytes)

-- The message that does not.
unfoldable pub open_part : List ℕ → List ℕ → List ℕ → List ℕ
open_part before [] bytes = before ++ bytes
open_part before (l ∷ lens) bytes = open_part [] lens (drop l bytes)

take-append : (n : ℕ) (xs ys : List ℕ) → n ≤ length xs → take n (xs ++ ys) ≡ take n xs
take-append zero xs ys h = refl
take-append (suc n) [] ys h = absurd (omega (arith, h))
take-append (suc n) (x ∷ xs) ys h = ap (λ zs. x ∷ zs) (take-append n xs ys (omega (arith, h)))

drop-append : (n : ℕ) (xs ys : List ℕ) → n ≤ length xs → drop n (xs ++ ys) ≡ drop n xs ++ ys
drop-append zero xs ys h = refl
drop-append (suc n) [] ys h = absurd (omega (arith, h))
drop-append (suc n) (x ∷ xs) ys h = drop-append n xs ys (omega (arith, h))

pub length-drop : (n : ℕ) (xs : List ℕ) → n ≤ length xs → length (drop n xs) + n ≡ length xs
length-drop zero xs h = omega arith
length-drop (suc n) [] h = omega arith
length-drop (suc n) (x ∷ xs) h = omega (arith, length-drop n xs (omega (arith, h)))

pub length-take : (n : ℕ) (xs : List ℕ) → n ≤ length xs → length (take n xs) ≡ n
length-take zero xs h = refl
length-take (suc n) [] h = omega arith
length-take (suc n) (x ∷ xs) h = ap suc (length-take n xs (omega (arith, h)))

pub take_all : (n : ℕ) (xs : List ℕ) → n ≡ length xs → take n xs ≡ xs
take_all zero [] h = refl
take_all zero (x ∷ xs) h = absurd (omega (arith, h))
take_all (suc n) [] h = refl
take_all (suc n) (x ∷ xs) h = ap (λ zs. x ∷ zs) (take_all n xs (omega (arith, h)))

pub drop_all : (n : ℕ) (xs : List ℕ) → n ≡ length xs → drop n xs ≡ []
drop_all zero [] h = refl
drop_all zero (x ∷ xs) h = absurd (omega (arith, h))
drop_all (suc n) [] h = refl
drop_all (suc n) (x ∷ xs) h = drop_all n xs (omega (arith, h))

pub messages-append :
    (before lens bytes more : List ℕ)
    → sum lens ≤ length bytes
    → messages before lens (bytes ++ more) ≡ messages before lens bytes
unfolding messages
messages-append before [] bytes more h = refl
messages-append before (l ∷ lens) bytes more h =
    rw (take-append l bytes more (omega (arith, h)), drop-append l bytes more (omega (arith, h)))
      (ap (λ ms. (before ++ take l bytes) ∷ ms)
        (messages-append [] lens (drop l bytes) more
          (omega (arith, h, length-drop l bytes (omega (arith, h))))))

pub open_part-append :
    (before lens bytes more : List ℕ)
    → sum lens ≤ length bytes
    → open_part before lens (bytes ++ more) ≡ open_part before lens bytes ++ more
unfolding open_part
open_part-append before [] bytes more h = sym (append_assoc before bytes more)
open_part-append before (l ∷ lens) bytes more h = rw (drop-append l bytes more (omega (arith, h))) (
    open_part-append [] lens (drop l bytes) more
      (omega (arith, h, length-drop l bytes (omega (arith, h)))))

pub messages_snoc :
    (before lens : List ℕ) (l : ℕ) (bytes : List ℕ)
    → sum lens + l ≡ length bytes
    → messages before (lens ++ l ∷ []) bytes
      ≡ messages before lens bytes ++ open_part before lens bytes ∷ []
unfolding messages open_part
messages_snoc before [] l bytes h = rw (take_all l bytes (omega (arith, h))) refl
messages_snoc before (k ∷ lens) l bytes h =
    ap (λ ms. (before ++ take k bytes) ∷ ms)
      (messages_snoc [] lens l (drop k bytes)
        (omega (arith, h, length-drop k bytes (omega (arith, h)))))

pub open_part_snoc :
    (before lens : List ℕ) (l : ℕ) (bytes : List ℕ)
    → sum lens + l ≡ length bytes
    → open_part before (lens ++ l ∷ []) bytes ≡ []
unfolding open_part
open_part_snoc before [] l bytes h = drop_all l bytes (omega (arith, h))
open_part_snoc before (k ∷ lens) l bytes h =
    open_part_snoc [] lens l (drop k bytes)
      (omega (arith, h, length-drop k bytes (omega (arith, h))))

suc-add : (k l : ℕ) → suc (k + l) ≡ suc k + l
suc-add k l = omega arith

drop_nil : (n : ℕ) → drop {A = ℕ} n [] ≡ []
drop_nil zero = refl
drop_nil (suc n) = refl

pub drop-drop : (k l : ℕ) (xs : List ℕ) → drop l (drop k xs) ≡ drop (k + l) xs
drop-drop zero l xs = ap (λ n. drop n xs) (omega arith)
drop-drop (suc k) l [] = drop_nil l ∙ sym (drop_nil (suc k + l))
drop-drop (suc k) l (x ∷ xs) = drop-drop k l xs ∙ ap (λ n. drop n (x ∷ xs)) (suc-add k l)

open_part_nil : (lens bytes : List ℕ) → open_part [] lens bytes ≡ drop (sum lens) bytes
unfolding open_part
open_part_nil [] bytes = refl
open_part_nil (l ∷ lens) bytes = open_part_nil lens (drop l bytes) ∙ drop-drop l (sum lens) bytes

pub open_part_cons :
    (before : List ℕ) (l : ℕ) (lens bytes : List ℕ)
    → open_part before (l ∷ lens) bytes ≡ drop (sum (l ∷ lens)) bytes
unfolding open_part
open_part_cons before l lens bytes =
    open_part_nil lens (drop l bytes) ∙ drop-drop l (sum lens) bytes
