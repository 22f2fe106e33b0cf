-- ===== src/Kern/Console/Sessions.antt =====
-- The console's users: interrupts that bring characters, and `cons_getc`.
use mathlib.Core.List.{append-nil, append_assoc}
use mathlib.Core.Path.{ap₂}
use sisop_mendez.Base.{
  All, Bool, List, [], arith, false, if◌then◌else◌, length, length-append, refl, sym, true, ℕ, ◌++◌,
  ◌+◌, ◌<◌, ◌==◌, ◌∙◌, ◌∷◌, ◌≡◌,
}
use sisop_mendez.Kern.Console.{Cons, cons_getc, cons_intr}
use sisop_mendez.Kern.Console.Input.{
  Queued, cons_intr-refines, next_char-refines, put_all_queue, put_queue, take_queue,
}

pub data ConsEvent : Type 0 where
  interrupt : List ℕ → ConsEvent
  getc : Bool → List ℕ → List ℕ → ConsEvent

-- What the calls of `cons_getc` return, in order.
unfoldable pub replies : Cons → List ConsEvent → List ℕ
replies c [] = []
replies c (interrupt xs ∷ es) = replies (cons_intr c xs) es
replies c (getc port serial keys ∷ es) =
    let (x, c') = cons_getc c port serial keys in x ∷ replies c' es

-- The same calls on a queue.
unfoldable pub queue_replies : List ℕ → List ConsEvent → List ℕ
queue_replies q [] = []
queue_replies q (interrupt xs ∷ es) = queue_replies (put_all_queue q xs) es
queue_replies q (getc port serial keys ∷ es) =
    let (x, q') = take_queue (put_all_queue (if port then put_all_queue q serial else q) keys) in
    x ∷ queue_replies q' es

-- The devices give bytes.
abbrev pub GivesBytes : ConsEvent → Type 0
GivesBytes (interrupt xs) = All (λ x. x < 256) xs
GivesBytes (getc port serial keys) = All (λ x. x < 256) serial × All (λ x. x < 256) keys

-- Over all sequences of interrupts and calls of `cons_getc`, whose devices give bytes, a ring that
-- holds the bytes `q` answers as the queue `q`: it gives the characters other than 0 in the order in
-- which they came, and 0 when it is empty; the queue has 511 places, and a character that finds
-- none free empties it.
pub replies-refines :
    (c : Cons) (q : List ℕ) (es : List ConsEvent)
    → Queued c q
    → All GivesBytes es
    → replies c es ≡ queue_replies q es
unfolding replies queue_replies cons_getc
replies-refines c q [] h b = refl
replies-refines c q (interrupt xs ∷ es) h b =
    replies-refines (cons_intr c xs) (put_all_queue q xs) es (cons_intr-refines c q xs h b.0) b.1
replies-refines c q (getc true serial keys ∷ es) h b =
    let h' =
      cons_intr-refines (cons_intr c serial) (put_all_queue q serial) keys
        (cons_intr-refines c q serial h b.0.0) b.0.1 in
    let n =
      next_char-refines (cons_intr (cons_intr c serial) keys)
        (put_all_queue (put_all_queue q serial) keys) h' in
    ap₂ ◌∷◌ n.0 (replies-refines _ _ es n.1 b.1)
replies-refines c q (getc false serial keys ∷ es) h b =
    let n =
      next_char-refines (cons_intr c keys) (put_all_queue q keys)
        (cons_intr-refines c q keys h b.0.1) in
    ap₂ ◌∷◌ n.0 (replies-refines _ _ es n.1 b.1)

put_all_queue-short :
    (q xs : List ℕ)
    → All (λ x. 0 < x) xs
    → length q + length xs < 512
    → put_all_queue q xs ≡ q ++ xs
unfolding put_all_queue put_queue
put_all_queue-short q [] p h = sym (append-nil q)
put_all_queue-short q (x ∷ xs) p h =
    let nz : (x == 0) ≡ false = ground (arith, p.0) in
    let free : (length q == 511) ≡ false = ground arith in
    let more : length (q ++ (x ∷ [])) + length xs < 512 = omega (arith, length-append q (x ∷ [])) in
    rw (nz, free) (put_all_queue-short (q ++ (x ∷ [])) xs p.1 more ∙ append_assoc q (x ∷ []) xs)

put_all_queue-full :
    (q xs : List ℕ)
    → All (λ x. 0 < x) xs
    → length q + length xs ≡ 512
    → length q < 512
    → put_all_queue q xs ≡ []
unfolding put_all_queue put_queue
put_all_queue-full q [] p h lt = absurd (omega arith)
put_all_queue-full q (x ∷ []) p h lt =
    let nz : (x == 0) ≡ false = ground (arith, p.0) in
    let last : (length q == 511) ≡ true = ground arith in rw (nz, last) refl
put_all_queue-full q (x ∷ (y ∷ xs)) p h lt =
    let nz : (x == 0) ≡ false = ground (arith, p.0) in
    let free : (length q == 511) ≡ false = ground arith in
    let len = length-append q (x ∷ []) in
    rw (nz, free)
      (put_all_queue-full (q ++ (x ∷ [])) (y ∷ xs) p.1 (omega (arith, len)) (omega (arith, len)))

-- A console that nobody has read, and that gets 512 characters other than 0, loses them all: the
-- next call of `cons_getc`, without more input, finds nothing.
pub cons_getc-lost :
    (c : Cons) (port : Bool) (xs : List ℕ)
    → Queued c []
    → All (λ x. x < 256) xs
    → All (λ x. 0 < x) xs
    → length xs ≡ 512
    → (cons_getc (cons_intr c xs) port [] []).0 ≡ 0
unfolding cons_getc cons_intr take_queue
cons_getc-lost c port xs h b p full =
    let empty : Queued (cons_intr c xs) [] =
      rw (sym (put_all_queue-full [] xs p (omega (arith, full)) (omega arith)))
        (cons_intr-refines c [] xs h b) in
    let rest : (if port then cons_intr c xs else cons_intr c xs) ≡ cons_intr c xs = ground arith in
    rw rest (next_char-refines (cons_intr c xs) [] empty).0
