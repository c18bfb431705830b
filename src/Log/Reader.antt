-- ===== src/Log/Reader.antt =====
-- What `seeker_log_read` hands to the reader.
use seeker_scheduler.Common.{
  ℕ, zero, suc, ◌+◌, ◌*◌, ◌≤◌, ◌<◌, ◌≡◌, ◌≢◌, refl, ap, ◌∙◌, ◌⊎◌, inl, inr, Bool, Bool-cases, true,
  false, ◌&&◌, some, leb, ◌==◌, ne→==, List, [], ◌∷◌, arith,
}
use seeker_scheduler.Log.{
  Log, LogRead, log_free, drop_start, goes_on, copy_loop, read_first, read_from, seeker_log_read,
}
use seeker_scheduler.Log.Queue.{Holds, SameList-Holds, drop_start-Holds}

-- `k` entries from the `a`-th one on.
abbrev pub slice {ℓ} : {E : Type ℓ} → (ℕ → E) → ℕ → ℕ → List E
slice f a zero = []
slice f a (suc k) = f a ∷ slice f (suc a) k

-- The entries from `lo` on are copied, as many as are before `hi` and fit.
pub record Copied {E : Type 0} (at : ℕ → ℕ) (written : ℕ → E) (size count lo hi i : ℕ) (l : Log E)
    (r : LogRead E) : Type 0 where
  pub number : ℕ
  pub copies : r.copied ≡ slice written lo number
  pub bytes : r.bytes ≡ i + number * size
  pub holds : Holds at written (lo + number) hi r.log
  pub full : (lo + number ≡ hi) ⊎ (count < i + number * size + size)
  pub fits : (number ≡ 0) ⊎ (i + number * size ≤ count)
  pub open_same : r.log.dev_open ≡ l.dev_open
  pub first_same : r.log.first_read ≡ l.first_read

module _ {E : Type 0} (at : ℕ → ℕ) (written : ℕ → E) (size count : ℕ) (some_size : 0 < size) where
  pub drop_start_flags :
      (p : ℕ) (l : Log E)
      → ((drop_start p l).dev_open ≡ l.dev_open) × ((drop_start p l).first_read ≡ l.first_read)
  unfolding drop_start log_free
  drop_start_flags p l = elim (Bool-cases l.cache) [
    | inl set ↦ rw set (refl, refl)
    | inr unset ↦ rw unset (refl, refl)
  ]

  -- Nothing more is copied.
  stop-Copied :
      (lo hi i : ℕ) (l : Log E)
      → Holds at written lo hi l
      → (lo ≡ hi) ⊎ (count < i + size)
      → Copied at written size count lo hi i l (record { log = l; copied = []; bytes = i })
  stop-Copied lo hi i l v why = record {
    number = 0;
    copies = refl;
    bytes = omega arith;
    holds = same v;
    full = ground (arith, why);
    fits = inl refl;
    open_same = refl;
    first_same = refl;
  }
    where
      same : Holds at written lo hi l → Holds at written (lo + 0) hi l
      same v = let q : lo + 0 ≡ lo = omega arith in rw q v

  loop_stops :
      (fuel i p : ℕ) (l : Log E)
      → l.start_log ≡ some p
      → goes_on size count i (some p) (l.blocks p).next l.current_log ≡ false
      → copy_loop size count (suc fuel) i l ≡ record { log = l; copied = []; bytes = i }
  unfolding copy_loop
  loop_stops fuel i p l e n = rw (e, n) refl

  loop_copies :
      (fuel i p : ℕ) (l : Log E)
      → l.start_log ≡ some p
      → goes_on size count i (some p) (l.blocks p).next l.current_log ≡ true
      → copy_loop size count (suc fuel) i l ≡ (
          let rest = copy_loop size count fuel (i + size) (drop_start p l) in
          record rest { copied = (l.blocks p).entry ∷ rest.copied })
  unfolding copy_loop
  loop_copies fuel i p l e n = rw (e, n) refl

  -- The condition, by where the list's ends are.
  goes_on_last :
      (i lo hi : ℕ) (l : Log E)
      → lo ≡ hi
      → Holds at written lo hi l
      → goes_on size count i (some (at lo)) (l.blocks (at lo)).next l.current_log ≡ false
  unfolding goes_on
  goes_on_last i lo hi l q v = rw (ap (λ j. (l.blocks (at j)).next) q ∙ v.ends) (ground arith)

  goes_on_more :
      (i lo hi : ℕ) (l : Log E)
      → lo < hi
      → Holds at written lo hi l
      → goes_on size count i (some (at lo)) (l.blocks (at lo)).next l.current_log
        ≡ leb (i + size) count
  unfolding goes_on
  goes_on_more i lo hi l h v =
      rw
        (
          v.link lo (omega arith) h,
          v.last,
          ne→== (at lo) (at hi) (v.distinct lo hi (omega arith) h (omega arith)),
        )
        (and_true (leb (i + size) count))
    where
      and_true : (b : Bool) → (b && true && true) ≡ b
      and_true b = ground arith

  -- One more entry, and then what the rest of the loop copies.
  more-Copied :
      (lo hi i p : ℕ) (l : Log E) (rest : LogRead E)
      → (l.blocks p).entry ≡ written lo
      → leb (i + size) count ≡ true
      → (drop_start p l).dev_open ≡ l.dev_open
      → (drop_start p l).first_read ≡ l.first_read
      → Copied at written size count (suc lo) hi (i + size) (drop_start p l) rest
      → Copied at written size count lo hi i l
          (record rest { copied = (l.blocks p).entry ∷ rest.copied })
  more-Copied lo hi i p l rest e room o f r = record {
    number = suc r.number;
    copies = rw (e, r.copies) refl;
    bytes = omega (arith, r.bytes);
    holds = let q : lo + suc r.number ≡ suc lo + r.number = omega arith in rw q r.holds;
    full = elim r.full [ inl all ↦ inl (omega arith) | inr no_room ↦ inr (omega arith) ];
    fits =
        inr (elim r.fits [ inl nothing ↦ rw nothing (ground arith) | inr some_fit ↦ omega arith ]);
    open_same = r.open_same ∙ o;
    first_same = r.first_same ∙ f;
  }

  copy_loop-Copied :
      (fuel lo hi i : ℕ) (l : Log E)
      → count ≤ i + fuel
      → Holds at written lo hi l
      → Copied at written size count lo hi i l (copy_loop size count fuel i l)
  unfolding copy_loop
  copy_loop-Copied zero lo hi i l enough v = stop-Copied lo hi i l v (inr (omega arith))
  copy_loop-Copied (suc fuel) lo hi i l enough v = elim (Bool-cases (lo == hi)) [
    | inl all ↦
        let q : lo ≡ hi = ground arith in
        rw (loop_stops fuel i (at lo) l v.first (goes_on_last i lo hi l q v))
          (stop-Copied lo hi i l v (inl q))
    | inr some_left ↦ elim (Bool-cases (leb (i + size) count)) [
      | inl room ↦
          let h = less v some_left in
          let (o, f) = drop_start_flags (at lo) l in
          let r =
            copy_loop-Copied fuel (suc lo) hi (i + size) (drop_start (at lo) l) (omega arith)
              (drop_start-Holds at written lo hi l h v) in
          rw (loop_copies fuel i (at lo) l v.first (goes_on_more i lo hi l h v ∙ room))
            (more-Copied lo hi i (at lo) l _ (v.content lo (omega arith) v.order) room o f r)
      | inr no_room ↦
          rw
            (loop_stops fuel i (at lo) l v.first
              (goes_on_more i lo hi l (less v some_left) v ∙ no_room))
            (stop-Copied lo hi i l v (inr (ground arith)))
    ]
  ]
    where
      less : Holds at written lo hi l → (lo == hi) ≡ false → lo < hi
      less v e = ground (arith, v.order)

  -- A read either goes on from where the list begins, or, if it is the first one and something has been
  -- put, leaves the list's first block out, which is not an entry.
  pub data Read (lo hi : ℕ) (l : Log E) (r : LogRead E) : Type 0 where
    goes :
        (l.first_read ≡ false) ⊎ (lo ≡ hi)
        → Copied at written size count lo hi 0 l r
        → Read lo hi l r
    begins :
        l.first_read ≡ true
        → Copied at written size count
            (suc lo)
            hi
            0
            (record (drop_start (at lo) l) { first_read = false })
            r
        → Read lo hi l r

  read_parts :
      (p c : ℕ) (first : Bool) (l : Log E)
      → l.start_log ≡ some p
      → l.current_log ≡ some c
      → l.first_read ≡ first
      → seeker_log_read size count l ≡ read_from size count (some p) (some c) first l
  unfolding seeker_log_read
  read_parts p c first l e h f =
      ap (λ x. read_from size count x l.current_log l.first_read l) e
      ∙ ap (λ x. read_from size count (some p) x l.first_read l) h
      ∙ ap (λ x. read_from size count (some p) (some c) x l) f

  read_nothing :
      (p c : ℕ) (first : Bool) (l : Log E)
      → p ≡ c
      → read_from size count (some p) (some c) first l ≡ record { log = l; copied = []; bytes = 0 }
  unfolding read_from
  read_nothing p c first l q = let s : (p == c) ≡ true = ground arith in rw s refl

  read_on :
      (p c : ℕ) (l : Log E)
      → p ≢ c
      → read_from size count (some p) (some c) false l ≡ copy_loop size count count 0 l
  unfolding read_from
  read_on p c l ne = rw (ne→== p c ne) refl

  read_begins :
      (p c q : ℕ) (l : Log E)
      → p ≢ c
      → (l.blocks p).next ≡ some q
      → read_from size count (some p) (some c) true l
        ≡ copy_loop size count count 0 (record (drop_start p l) { first_read = false })
  unfolding read_from read_first
  read_begins p c q l ne n =
      let s : read_from size count (some p) (some c) true l
          ≡ read_first size count (l.blocks p).next p l =
        rw (ne→== p c ne) refl in
      s ∙ ap (λ x. read_first size count x p l) n

  first_cleared :
      (lo hi : ℕ) (l : Log E)
      → Holds at written lo hi l
      → Holds at written lo hi (record l { first_read = false })
  first_cleared lo hi l v =
      SameList-Holds at written lo hi l (record l { first_read = false })
        (record {
          blocks_same = refl;
          live_same = refl;
          start_same = refl;
          current_same = refl;
          cache_same = refl;
        })
        v

  pub seeker_log_read-Read :
      (lo hi : ℕ) (l : Log E)
      → Holds at written lo hi l
      → Read lo hi l (seeker_log_read size count l)
  seeker_log_read-Read lo hi l v = elim (Bool-cases (lo == hi)) [
    | inl all ↦
        let q : lo ≡ hi = ground arith in
        rw
          (
            read_parts (at lo) (at hi) l.first_read l v.first v.last refl,
            read_nothing (at lo) (at hi) l.first_read l (ap at q),
          )
          (goes (inr q) (stop-Copied lo hi 0 l v (inl q)))
    | inr some_left ↦
        let h : lo < hi = ground (arith, v.order) in
        let ne = v.distinct lo hi (omega arith) h (omega arith) in
        elim (Bool-cases l.first_read) [
          | inl first ↦
              rw
                (
                  read_parts (at lo) (at hi) true l v.first v.last first,
                  read_begins (at lo) (at hi) (at (suc lo)) l ne (v.link lo (omega arith) h),
                )
                (begins first (
                  copy_loop-Copied count (suc lo) hi 0 _ (omega arith) (
                    first_cleared (suc lo) hi (drop_start (at lo) l)
                      (drop_start-Holds at written lo hi l h v))))
          | inr later ↦
              rw
                (
                  read_parts (at lo) (at hi) false l v.first v.last later,
                  read_on (at lo) (at hi) l ne,
                )
                (goes (inl later) (copy_loop-Copied count lo hi 0 l (omega arith) v))
        ]
  ]
