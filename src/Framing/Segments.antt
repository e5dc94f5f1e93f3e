-- ===== src/Framing/Segments.antt =====
-- The cut of a stream into messages does not depend on how the stream is cut into reads.
use recentip.Prelude.{
  ℕ, zero, suc, ◌+◌, ◌≤◌, ◌≡◌, refl, ◌∙◌, Bool, true, false, ltb, leb, List, [], ◌∷◌, ◌++◌, none,
  some, length, take, take-append_le, drop-append_le, drop, arith, append-nil, append_assoc,
  length-append, length-drop, Bool-cases, Option-cases, inl, inr,
}
use recentip.Wire.Cookie.{is_magic_cookie, parse_someip_length}
use recentip.Wire.Header.{header_size}
use recentip.Framing.{drain, read, reads}

-- The bytes that are left are no more than those that were there.
length-drain : (fuel : ℕ) (b : List ℕ) → length (drain fuel b).1 ≤ length b
unfolding drain
length-drain zero b = omega arith
length-drain (suc fuel) b = elim (Option-cases (parse_someip_length b)) [
  | inl bad ↦ ground (arith, bad)
  | inr (len, good) ↦
      ground (arith, good, length-drain fuel (drop (8 + len) b), length-drop (8 + len) b)
]

-- Fuel for each byte is enough: more makes no difference.
pub drain_enough : (m n : ℕ) (b : List ℕ) → length b ≤ m → length b ≤ n → drain m b ≡ drain n b
unfolding drain
drain_enough zero zero b hm hn = refl
drain_enough zero (suc n) b hm hn = ground arith
drain_enough (suc m) zero b hm hn = ground arith
drain_enough (suc m) (suc n) b hm hn = elim (Option-cases (parse_someip_length b)) [
  | inl bad ↦ ground (arith, bad)
  | inr (len, good) ↦ elim (Bool-cases (ltb (length b) header_size)) [
    | inl short ↦ rw short refl
    | inr long ↦
        rw
          (
            long,
            good,
            drain_enough m n (drop (8 + len) b) (ground (arith, length-drop (8 + len) b))
                (ground (arith, length-drop (8 + len) b)),
          )
          refl
  ]
]

parse_someip_length-append :
    (b c : List ℕ) → 8 ≤ length b → parse_someip_length (b ++ c) ≡ parse_someip_length b
unfolding parse_someip_length
parse_someip_length-append (_ ∷ _ ∷ _ ∷ _ ∷ x ∷ y ∷ z ∷ w ∷ b) c h = refl
parse_someip_length-append _ c h = absurd (omega arith)

is_magic_cookie-append :
    (b c : List ℕ) → 8 ≤ length b → is_magic_cookie (b ++ c) ≡ is_magic_cookie b
unfolding is_magic_cookie
is_magic_cookie-append (x ∷ y ∷ z ∷ w ∷ b) c h = refl
is_magic_cookie-append _ c h = absurd (omega arith)

-- What a reader passes on after it had `b` and has got `c`.
abbrev continue_with : List (List ℕ) × List ℕ → List ℕ → List (List ℕ) × List ℕ
continue_with (messages, left) c =
    let (messages', left') = read left c in (messages ++ messages', left')

-- A whole frame at the front: a Magic Cookie is dropped, anything else is passed on.
abbrev pub emit : Bool → List ℕ → List (List ℕ) × List ℕ → List (List ℕ) × List ℕ
emit true frame (messages, left) = (messages, left)
emit false frame (messages, left) = (frame ∷ messages, left)

emit-continue_with :
    (cookie : Bool) (frame c : List ℕ) (r : List (List ℕ) × List ℕ)
    → emit cookie frame (continue_with r c) ≡ continue_with (emit cookie frame r) c
emit-continue_with true frame c r = refl
emit-continue_with false frame c r = refl

drain-short : (n : ℕ) (b : List ℕ) → ltb (length b) header_size ≡ true → drain (suc n) b ≡ ([], b)
unfolding drain
drain-short n b h = rw h refl

drain-no_length : (n : ℕ) (b : List ℕ) → parse_someip_length b ≡ none → drain (suc n) b ≡ ([], b)
unfolding drain
drain-no_length n b h = rw h (ground arith)

drain-part :
    (n : ℕ) (b : List ℕ) (len : ℕ)
    → parse_someip_length b ≡ some len
    → leb (8 + len) (length b) ≡ false
    → drain (suc n) b ≡ ([], b)
unfolding drain
drain-part n b len good h = rw (good, h) (ground arith)

pub drain-frame :
    (n : ℕ) (b : List ℕ) (len : ℕ)
    → 16 ≤ length b
    → parse_someip_length b ≡ some len
    → 8 + len ≤ length b
    → drain (suc n) b ≡ emit (is_magic_cookie b) (take (8 + len) b) (drain n (drop (8 + len) b))
unfolding drain
drain-frame n b len long good whole = elim (Bool-cases (is_magic_cookie b)) [
  | inl cookie ↦ rw (good, cookie) (ground arith)
  | inr other ↦ rw (good, other) (ground arith)
]

-- A reader that waits starts again from the same bytes and the new ones.
drain-waiting :
    (n k : ℕ) (b c : List ℕ)
    → length (b ++ c) ≤ k
    → drain n b ≡ ([], b)
    → drain k (b ++ c) ≡ continue_with (drain n b) c
unfolding read
drain-waiting n k b c hk e = rw e (drain_enough k (length (b ++ c)) (b ++ c) hk (omega arith))

-- Behind a whole frame the bytes are drained as the hypothesis says.
drain-append_frame :
    (n k : ℕ) (b c : List ℕ) (len : ℕ)
    → 16 ≤ length b
    → parse_someip_length b ≡ some len
    → 8 + len ≤ length b
    → length (b ++ c) ≤ k
    → ((k' : ℕ)
        → length (drop (8 + len) b ++ c) ≤ k'
        → drain k' (drop (8 + len) b ++ c) ≡ continue_with (drain n (drop (8 + len) b)) c)
    → drain k (b ++ c) ≡ continue_with (drain (suc n) b) c
drain-append_frame n zero b c len long good whole hk ih = absurd (omega (arith, length-append b c))
drain-append_frame n (suc k) b c len long good whole hk ih =
    drain-frame k (b ++ c) len (omega (arith, length-append b c))
      (parse_someip_length-append b c (omega arith) ∙ good) (omega (arith, length-append b c))
    ∙ rw
        (
          is_magic_cookie-append b c (omega arith),
          take-append_le (8 + len) b c whole,
          drop-append_le (8 + len) b c whole,
          drain-frame n b len long good whole,
          ih k (
              omega (
                arith,
                length-drop (8 + len) b,
                length-append b c,
                length-append (drop (8 + len) b) c,
              )),
        )
        (emit-continue_with (is_magic_cookie b) (take (8 + len) b) c (drain n (drop (8 + len) b)))

-- Draining what was received so far, and again after more bytes, is the same as draining once.
drain-append :
    (n k : ℕ) (b c : List ℕ)
    → length b ≤ n
    → length (b ++ c) ≤ k
    → drain k (b ++ c) ≡ continue_with (drain n b) c
drain-append zero k b c hn hk = drain-waiting zero k b c hk (unfold drain in refl)
drain-append (suc n) k b c hn hk = elim (Bool-cases (ltb (length b) header_size)) [
  | inl short ↦ drain-waiting (suc n) k b c hk (drain-short n b short)
  | inr long ↦ elim (Option-cases (parse_someip_length b)) [
    | inl bad ↦ drain-waiting (suc n) k b c hk (drain-no_length n b bad)
    | inr (len, good) ↦ elim (Bool-cases (leb (8 + len) (length b))) [
      | inl whole ↦
          drain-append_frame n k b c len (ground arith) good (ground arith) hk
            (λ k'. drain-append n k' (drop (8 + len) b) c (omega (arith, length-drop (8 + len) b)))
      | inr part ↦ drain-waiting (suc n) k b c hk (drain-part n b len good part)
    ]
  ]
]

abbrev pub concat : List (List ℕ) → List ℕ
concat [] = []
concat (c ∷ cs) = c ++ concat cs

read-append : (b c d : List ℕ) → read b (c ++ d) ≡ continue_with (read b c) d
read-append b c d =
    unfold read in
    rw (← append_assoc b c d) (
      drain-append (length (b ++ c)) (length ((b ++ c) ++ d)) (b ++ c) d (omega arith)
        (omega arith))

-- However a stream is cut into reads, a connection passes on the same messages and keeps the same
-- rest as if all of it came in one read.
pub reads-segments :
    (b c : List ℕ) (cs : List (List ℕ)) → reads b (c ∷ cs) ≡ read b (c ++ concat cs)
unfolding reads
reads-segments b c [] = rw (append-nil c, append-nil)
reads-segments b c (d ∷ ds) =
    rw (read-append b c (d ++ concat ds), ← reads-segments (read b c).1 d ds)
