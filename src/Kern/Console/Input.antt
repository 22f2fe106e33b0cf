-- ===== src/Kern/Console/Input.antt =====
-- The ring of input characters of kern/console.c as a queue.
use sisop_mendez.Base.{
  All, Bool-cases, List, Nat-cases, [], arith, false, get_or, get_or-set_ne, get_or-set_self,
  if◌then◌else◌, inl, inr, length, length-append, length-set, refl, suc, sym, true, zero, ℕ, ◌%◌,
  ◌++◌, ◌+◌, ◌<◌, ◌==◌, ◌∙◌, ◌∷◌, ◌≡◌,
}
use sisop_mendez.Kern.Console.{Cons, cons_intr, consbufsize, next_char, put_char, wrapped}

-- The ring holds the bytes `q`, the next one first. One place stays free.
pub record Queued (c : Cons) (q : List ℕ) : Type 0 where
  pub room : length c.buf ≡ consbufsize
  pub rpos_in : c.rpos < consbufsize
  pub short : length q < consbufsize
  pub wpos_at : c.wpos ≡ (c.rpos + length q) % consbufsize
  pub bytes : (i : ℕ) → i < length q → get_or c.buf ((c.rpos + i) % consbufsize) 0 ≡ get_or q i 0
  pub nonzero : All (λ x. 0 < x) q

get_or-snoc : (q : List ℕ) (x i : ℕ) → i < length q → get_or (q ++ (x ∷ [])) i 0 ≡ get_or q i 0
get_or-snoc [] x i h = absurd (omega arith)
get_or-snoc (y ∷ q) x zero h = refl
get_or-snoc (y ∷ q) x (suc i) h = get_or-snoc q x i (omega arith)

get_or-last : (q : List ℕ) (x : ℕ) → get_or (q ++ (x ∷ [])) (length q) 0 ≡ x
get_or-last [] x = refl
get_or-last (y ∷ q) x = get_or-last q x

All-append : (P : ℕ → Type 0) (xs ys : List ℕ) → All P xs → All P ys → All P (xs ++ ys)
All-append P [] ys h k = k
All-append P (x ∷ xs) ys h k = (h.0, All-append P xs ys h.1 k)

module _ (c : Cons) (q : List ℕ) (x : ℕ) (h : Queued c q) (pos : 0 < x) (byte : x < 256) where
  put-Queued : length q < 511 → Queued (put_char c x) (q ++ (x ∷ []))
  unfolding put_char
  put-Queued lt =
      let e : (x == 0) ≡ false = ground arith in
      let same : x % 256 ≡ x = omega arith in
      let len : length (q ++ (x ∷ [])) ≡ length q + 1 = omega (arith, length-append q (x ∷ [])) in
      let w : c.wpos < 512 = omega (arith, h.wpos_at) in
      rw e (record {
        room = length-set c.buf c.wpos (x % 256) ∙ h.room;
        rpos_in = h.rpos_in;
        short = omega (arith, len);
        wpos_at = ground (arith, len, h.wpos_at, h.rpos_in);
        bytes = λ i lt'. elim (Nat-cases i (length q)) [
          | inl l ↦
              get_or-set_ne c.buf (x % 256) 0 (λ e'. omega (arith, e', h.wpos_at, h.rpos_in))
              ∙ (h.bytes i l ∙ sym (get_or-snoc q x i l))
          | inr g ↦
              let last : i ≡ length q = omega (arith, len) in
              let at : (c.rpos + i) % 512 ≡ c.wpos = omega (arith, last, h.wpos_at) in
              rw (at, same, last)
                (get_or-set_self c.buf c.wpos x 0 (omega (arith, w, h.room))
                  ∙ sym (get_or-last q x))
        ];
        nonzero = All-append (λ y. 0 < y) q (x ∷ []) h.nonzero (pos, tt);
      })

  put-full : length q ≡ 511 → Queued (put_char c x) []
  unfolding put_char
  put-full full =
      let e : (x == 0) ≡ false = ground arith in
      rw e (record {
        room = length-set c.buf c.wpos (x % 256) ∙ h.room;
        rpos_in = h.rpos_in;
        short = omega arith;
        wpos_at = ground (arith, full, h.wpos_at, h.rpos_in);
        bytes = λ i lt'. absurd (omega arith);
        nonzero = tt;
      })

-- The queue of a console: 511 characters at most, and the next one empties it.
unfoldable pub put_queue : List ℕ → ℕ → List ℕ
put_queue q x = if x == 0 then q else if length q == 511 then [] else q ++ (x ∷ [])

unfoldable pub put_all_queue : List ℕ → List ℕ → List ℕ
put_all_queue q [] = q
put_all_queue q (x ∷ xs) = put_all_queue (put_queue q x) xs

unfoldable pub take_queue : List ℕ → ℕ × List ℕ
take_queue [] = (0, [])
take_queue (x ∷ q) = (x, q)

put_char-zero : (c : Cons) → put_char c 0 ≡ c
unfolding put_char
put_char-zero c = refl

put_char-refines :
    (c : Cons) (q : List ℕ) (x : ℕ) → Queued c q → x < 256 → Queued (put_char c x) (put_queue q x)
unfolding put_queue
put_char-refines c q zero h lt = rw (put_char-zero c) h
put_char-refines c q (suc x) h lt =
    let nz : (suc x == 0) ≡ false = ground arith in
    elim (Bool-cases (length q == 511)) [
      | inl e ↦ rw (nz, e) (put-full c q (suc x) h (omega arith) lt (ground (arith, e)))
      | inr e ↦ rw (nz, e) (put-Queued c q (suc x) h (omega arith) lt (ground (arith, e, h.short)))
    ]

pub cons_intr-refines :
    (c : Cons) (q xs : List ℕ)
    → Queued c q
    → All (λ x. x < 256) xs
    → Queued (cons_intr c xs) (put_all_queue q xs)
unfolding cons_intr put_all_queue
cons_intr-refines c q [] h b = h
cons_intr-refines c q (x ∷ xs) h b =
    cons_intr-refines (put_char c x) (put_queue q x) xs (put_char-refines c q x h b.0) b.1

pub next_char-refines :
    (c : Cons) (q : List ℕ)
    → Queued c q
    → ((next_char c).0 ≡ (take_queue q).0) × Queued (next_char c).1 (take_queue q).1
unfolding next_char take_queue
next_char-refines c [] h =
    let e : (c.rpos == c.wpos) ≡ true = ground (arith, h.wpos_at, h.rpos_in) in rw e (refl, h)
next_char-refines c (x ∷ q) h =
    let e : (c.rpos == c.wpos) ≡ false = ground (arith, h.wpos_at, h.rpos_in, h.short) in
    let at : (c.rpos + 0) % 512 ≡ c.rpos = omega (arith, h.rpos_in) in
    let first : get_or c.buf c.rpos 0 ≡ x = rw (sym at) (h.bytes 0 (omega arith)) in
    rw e (
      first,
      record {
        room = h.room;
        rpos_in = ground (arith, h.rpos_in);
        short = omega (arith, h.short);
        wpos_at = ground (arith, h.wpos_at, h.rpos_in);
        bytes = λ i lt.
            let to : (wrapped (c.rpos + 1) + i) % 512 ≡ (c.rpos + suc i) % 512 =
              ground (arith, h.rpos_in) in
            rw to (h.bytes (suc i) (omega arith));
        nonzero = h.nonzero.1;
      },
    )
