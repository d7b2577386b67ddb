-- ===== src/Strext/Edit.antt =====
-- What `strins`, `strcut` and `substr` of source/strext.c do to a string, and that they fit.
use iosdbg.Base.{
  ℕ, zero, suc, ◌+◌, ◌≤◌, ◌<◌, ◌≡◌, ◌≢◌, refl, true, false, ◌&&◌, ◌||◌, some, List, [], ◌∷◌, ◌++◌,
  ◌==◌, ltb, length, take, drop, replicate, arith, ◌∙◌, sym, ap, length-append, length-take,
  length-drop, take-append-drop,
}
use mathlib.Core.List.{append_assoc, append-nil}
use iosdbg.Base.Int.{pos, negsuc}
use iosdbg.Base.Slices.{take-append_exact, drop-append_exact}
use iosdbg.Memory.{put_bytes}
use iosdbg.Strext.{strins, strins_at, strcut, strcut_at, substr}

-- The string with another one in front of the character at an index.
abbrev pub inserted : (target str : List ℕ) → ℕ → List ℕ
inserted target str i = take i target ++ (str ++ drop i target)

length-prefix : (i : ℕ) (xs : List ℕ) → i ≤ length xs → length (take i xs) ≡ i
length-prefix i xs h = omega (arith, length-take i xs)

drop-all : (xs : List ℕ) (n : ℕ) → length xs ≤ n → drop n xs ≡ []
drop-all [] zero h = refl
drop-all [] (suc n) h = refl
drop-all (x ∷ xs) zero h = absurd (omega arith)
drop-all (x ∷ xs) (suc n) h = drop-all xs n (omega arith)

take-append_le : (i : ℕ) (xs ys : List ℕ) → i ≤ length xs → take i (xs ++ ys) ≡ take i xs
take-append_le zero xs ys h = refl
take-append_le (suc i) [] ys h = absurd (omega arith)
take-append_le (suc i) (x ∷ xs) ys h = ap (λ r. x ∷ r) (take-append_le i xs ys (omega arith))

-- The characters that are stored up to the end of the buffer replace what was there.
put_to_end :
    (i : ℕ) (buf bs : List ℕ) → length buf ≡ i + length bs → put_bytes buf i bs ≡ take i buf ++ bs
unfolding put_bytes
put_to_end i buf bs e = rw (drop-all buf (i + length bs) (omega arith), append-nil bs) refl

length-replicate : (n x : ℕ) → length (replicate n x) ≡ n
length-replicate zero x = refl
length-replicate (suc n) x = ap suc (length-replicate n x)

strins_at-inserted :
    (junk : ℕ) (target str : List ℕ) (i : ℕ)
    → i ≤ length target
    → strins_at junk target str i ≡ inserted target str i
unfolding strins_at put_bytes
strins_at-inserted junk target str i h =
    let room = target ++ replicate (length str) junk in
    let front = take i target in
    let first = put_bytes room i str in
    let front_of : take i room ≡ front = take-append_le i target (replicate (length str) junk) h in
    let behind = drop (i + length str) room in
    let size : length room ≡ length target + length str =
      length-append target (replicate (length str) junk)
      ∙ ap (λ n. length target + n) (length-replicate (length str) junk) in
    let e : first ≡ front ++ (str ++ behind) = ap (λ r. r ++ (str ++ behind)) front_of in
    let whole : length first ≡ length str + i + length (drop i target) =
      ap length e
      ∙ omega (
        arith,
        length-append front (str ++ behind),
        length-append str behind,
        length-prefix i target h,
        length-drop (i + length str) room,
        length-drop i target,
        size,
      ) in
    let kept : take (length str + i) first ≡ front ++ str =
      ap (take (length str + i)) (e ∙ sym (append_assoc front str behind))
      ∙ take-append_exact (length str + i) (front ++ str) behind
          (omega (arith, length-append front str, length-prefix i target h)) in
    put_to_end (length str + i) first (drop i target) whole
    ∙ ap (λ r. r ++ drop i target) kept
    ∙ append_assoc front str (drop i target)

strcut_at-removed :
    (target : List ℕ) (i n : ℕ)
    → i + n ≤ length target
    → strcut_at target i (i + n) ≡ take i target ++ drop (i + n) target
unfolding strcut_at put_bytes
strcut_at-removed target i n h =
    let saved = drop (i + n) target in
    let front = take i target in
    let behind = drop (i + length saved) target in
    ap (take (i + length saved)) (sym (append_assoc front saved behind))
    ∙ take-append_exact (i + length saved) (front ++ saved) behind
        (omega (arith, length-append front saved, length-prefix i target (omega arith)))

-- At an index inside the string or at its end, `strins` puts a string that is not empty in front of
-- the character at the index; at any other index the string is as it was.
pub strins-inserted :
    (junk : ℕ) (target str : List ℕ) (i : ℕ)
    → str ≢ []
    → (i ≤ length target
        → strins junk (some target) (some str) (pos i) ≡ some (inserted target str i))
      × (length target < i → strins junk (some target) (some str) (pos i) ≡ some target)
      × (strins junk (some target) (some str) (negsuc i) ≡ some target)
unfolding strins
strins-inserted junk target [] i ne = absurd (ne refl)
strins-inserted junk target (c ∷ cs) i ne = (
  λ h.
      (let inside : (ltb (length target) i || (length (c ∷ cs) == 0)) ≡ false = ground arith in
        rw (inside, strins_at-inserted junk target (c ∷ cs) i h) refl),
  λ h. (let outside : ltb (length target) i ≡ true = ground arith in rw outside refl),
  refl,
)

-- For a range of at least one character inside the string, `strcut` takes out its characters.
pub strcut-removed :
    (target : List ℕ) (i n : ℕ)
    → 0 < n
    → i + n ≤ length target
    → strcut (some target) (pos i) (pos n) ≡ some (take i target ++ drop (i + n) target)
unfolding strcut
strcut-removed target i n some_bytes h =
    let inside : ltb (length target) i ≡ false = ground arith in
    let bytes : (n == 0) ≡ false = ground arith in
    let end : ltb (length target) (i + n) ≡ false = ground arith in
    let start : (i + n == 0) ≡ false = ground arith in
    let both : ((i == 0) && (i + n == 0)) ≡ false = ground arith in
    rw (inside, both, bytes, end, strcut_at-removed target i n h) refl

pos_length : (xs : List ℕ) → xs ≢ [] → 0 < length xs
pos_length [] ne = absurd (ne refl)
pos_length (x ∷ xs) ne = omega arith

drop-front : (xs ys : List ℕ) → drop (length xs) (xs ++ ys) ≡ ys
drop-front [] ys = refl
drop-front (x ∷ xs) ys = drop-front xs ys

drop-prefix : (n : ℕ) (xs ys : List ℕ) → length xs ≡ n → drop n (xs ++ ys) ≡ ys
drop-prefix n xs ys e = rw (← e) (drop-front xs ys)

substr-inside :
    (str : List ℕ) (i n : ℕ)
    → 0 < n
    → i + n ≤ length str
    → substr (some str) (pos i) (pos n) ≡ some (take n (drop i str))
unfolding substr
substr-inside str i n len h =
    let inside : (ltb (length str) i || ((n == 0) || ltb (length str) (i + n))) ≡ false =
      ground arith in
    rw inside refl

-- What `strins` puts into a string at an index inside it or at its end, `substr` reads back there,
-- and `strcut` takes out again.
pub substr-strins :
    (junk : ℕ) (target str : List ℕ) (i : ℕ)
    → str ≢ []
    → i ≤ length target
    → (substr (strins junk (some target) (some str) (pos i)) (pos i) (pos (length str)) ≡ some str)
      × (strcut (strins junk (some target) (some str) (pos i)) (pos i) (pos (length str))
          ≡ some target)
substr-strins junk target str i ne h =
    let front = take i target in
    let size = length-prefix i target h in
    let whole = inserted target str i in
    let len : length whole ≡ i + (length str + length (drop i target)) = omega (
      arith,
      length-append front (str ++ drop i target),
      length-append str (drop i target),
      size,
    ) in
    let full : 0 < length str = pos_length str ne in
    let cut : drop (i + length str) whole ≡ drop i target =
      drop-append_exact i (length str) front (str ++ drop i target) size
      ∙ drop-front str (drop i target) in
    rw ((strins-inserted junk target str i ne).0 h) (
      substr-inside whole i (length str) full (omega arith)
          ∙ ap some (
              ap (take (length str)) (drop-prefix i front (str ++ drop i target) size)
              ∙ take-append_exact (length str) str (drop i target) refl),
      strcut-removed whole i (length str) full (omega arith)
          ∙ ap some (
              ap (λ r. r ++ drop (i + length str) whole)
                (take-append_exact i front (str ++ drop i target) size)
              ∙ ap (λ r. front ++ r) cut
              ∙ take-append-drop i target),
    )
