-- ===== src/Log/Ordered.antt =====
-- What has been read of a log stands before what its list still holds.
use seeker_scheduler.Common.{
  ℕ, zero, suc, ◌+◌, ◌-◌, ◌≤◌, ◌<◌, ◌≡◌, refl, ap, ◌∙◌, sym, ◌⊎◌, inl, inr, true, false, some,
  update, update_other, update_same, List, [], ◌∷◌, ◌++◌, arith,
}
use seeker_scheduler.Log.{Log, log_entry, LogRead, seeker_log_read, drop_start}
use seeker_scheduler.Log.Queue.{Holds, log_entry-Holds, log_entry_flags}
use seeker_scheduler.Log.Reader.{
  slice, Copied, Read, goes, begins, seeker_log_read-Read, drop_start_flags,
}

module _ {E : Type 0} where
  pub slice-append : (f : ℕ → E) (a n m : ℕ) → slice f a (n + m) ≡ slice f a n ++ slice f (a + n) m
  slice-append f a zero m =
      let q : a + 0 ≡ a = omega arith in let z : 0 + m ≡ m = omega arith in rw (q, z) refl
  slice-append f a (suc n) m =
      let q : a + suc n ≡ suc a + n = omega arith in
      let z : suc n + m ≡ suc (n + m) = omega arith in
      rw (q, z) (ap (λ xs. f a ∷ xs) (slice-append f (suc a) n m))

  slice-update :
      (f : ℕ → E) (a k n : ℕ) (e : E) → a + k ≤ n → slice (update f n e) a k ≡ slice f a k
  slice-update f a zero n e h = refl
  slice-update f a (suc k) n e h =
      rw (update_other f n a e (λ q. omega arith), slice-update f (suc a) k n e (omega arith)) refl

  slice-put :
      (f : ℕ → E) (n : ℕ) (e : E) → slice f 1 n ++ (e ∷ []) ≡ slice (update f (suc n) e) 1 (suc n)
  slice-put f n e =
      let g = update f (suc n) e in
      let q : suc n ≡ n + 1 = omega arith in
      let at_end : g (1 + n) ≡ e =
        let p : 1 + n ≡ suc n = omega arith in rw p (update_same f (suc n) e) in
      sym (
        ap (slice g 1) q
        ∙ slice-append g 1 n 1
        ∙ ap (λ x. slice g 1 n ++ (x ∷ [])) at_end
        ∙ ap (λ xs. xs ++ (e ∷ [])) (slice-update f 1 n (suc n) e (omega arith)))

  -- Before the first read, and after it.
  abbrev HasRead : Log E → (ℕ → E) → ℕ → List E → Type 0
  HasRead l written lo reads =
      ((l.first_read ≡ true) × (lo ≡ 0) × (reads ≡ []))
      ⊎ ((l.first_read ≡ false) × (0 < lo) × (reads ≡ slice written 1 (lo - 1)))

  -- What is read stands before what the list still holds.
  pub record Ordered (l : Log E) (puts reads : List E) : Type 0 where
    pub at : ℕ → ℕ
    pub written : ℕ → E
    pub lo : ℕ
    pub hi : ℕ
    pub holds : Holds at written lo hi l
    pub is_open : l.dev_open ≡ true
    pub has_put : puts ≡ slice written 1 hi
    pub has_read : HasRead l written lo reads

  pub put-Ordered :
      (l : Log E) (puts reads : List E) (p : ℕ) (e : E)
      → l.live p ≡ false
      → Ordered l puts reads
      → Ordered (log_entry (some p) e l) (puts ++ (e ∷ [])) reads
  put-Ordered l puts reads p e fresh v =
      let (o, f) = log_entry_flags v.at v.written v.lo v.hi p e l v.is_open v.holds in
      record {
        at = update v.at (suc v.hi) p;
        written = update v.written (suc v.hi) e;
        lo = v.lo;
        hi = suc v.hi;
        holds = log_entry-Holds v.at v.written v.lo v.hi p e l v.is_open fresh v.holds;
        is_open = o ∙ v.is_open;
        has_put = ap (λ xs. xs ++ (e ∷ [])) v.has_put ∙ slice-put v.written v.hi e;
        has_read = elim v.has_read [
          | inl (t, z, r) ↦ inl (f ∙ t, z, r)
          | inr (t, z, r) ↦ inr (
            f ∙ t,
            z,
            r
                ∙ sym (
                    slice-update v.written 1 (v.lo - 1) (suc v.hi) e
                      (omega (arith, v.holds.order))),
          )
        ];
      }

  copied-Ordered :
      (size count lo : ℕ) (l m : Log E) (puts reads : List E) (r : LogRead E)
      (v : Ordered l puts reads)
      → Copied v.at v.written size count lo v.hi 0 m r
      → m.dev_open ≡ true
      → m.first_read ≡ false
      → 0 < lo
      → reads ≡ slice v.written 1 (lo - 1)
      → Ordered r.log puts (reads ++ r.copied)
  copied-Ordered size count lo l m puts reads r v c o f pos e = record {
    at = v.at;
    written = v.written;
    lo = lo + c.number;
    hi = v.hi;
    holds = c.holds;
    is_open = c.open_same ∙ o;
    has_put = v.has_put;
    has_read =
        inr (
          c.first_same ∙ f,
          omega arith,
          joined lo c.number v.written reads r.copied pos e c.copies,
        );
  }
    where
      joined :
          (lo k : ℕ) (f : ℕ → E) (xs ys : List E)
          → 0 < lo
          → xs ≡ slice f 1 (lo - 1)
          → ys ≡ slice f lo k
          → xs ++ ys ≡ slice f 1 (lo + k - 1)
      joined lo k f xs ys pos e h =
          let q : lo + k - 1 ≡ (lo - 1) + k = omega arith in
          let z : lo ≡ 1 + (lo - 1) = omega arith in
          rw (e, h, q)
            (ap (λ a. slice f 1 (lo - 1) ++ slice f a k) z ∙ sym (slice-append f 1 (lo - 1) k))

  pub read-Ordered :
      (size count : ℕ) (l : Log E) (puts reads : List E)
      → 0 < size
      → Ordered l puts reads
      → Ordered
          (seeker_log_read size count l).log
          puts
          (reads ++ (seeker_log_read size count l).copied)
  read-Ordered size count l puts reads some_size v =
      go (seeker_log_read size count l)
        (seeker_log_read-Read v.at v.written size count some_size v.lo v.hi l v.holds)
    where
      idle :
          (r : LogRead E)
          → Copied v.at v.written size count v.lo v.hi 0 l r
          → l.first_read ≡ true
          → v.lo ≡ 0
          → v.lo ≡ v.hi
          → reads ≡ []
          → Ordered r.log puts (reads ++ r.copied)
      idle r c t z q e =
          let none : c.number ≡ 0 = omega (arith, c.holds.order) in
          record {
            at = v.at;
            written = v.written;
            lo = v.lo + c.number;
            hi = v.hi;
            holds = c.holds;
            is_open = c.open_same ∙ v.is_open;
            has_put = v.has_put;
            has_read = inl (c.first_same ∙ t, omega arith, rw (e, c.copies, none) refl);
          }

      go_on :
          (r : LogRead E)
          → (l.first_read ≡ false) ⊎ (v.lo ≡ v.hi)
          → Copied v.at v.written size count v.lo v.hi 0 l r
          → HasRead l v.written v.lo reads
          → Ordered r.log puts (reads ++ r.copied)
      go_on r why c (inr (f, pos, e)) =
          copied-Ordered size count v.lo l l puts reads r v c v.is_open f pos e
      go_on r (inl f) c (inl (t, z, e)) = absurd (ground (arith, f, t))
      go_on r (inr q) c (inl (t, z, e)) = idle r c t z q e

      go_first :
          (r : LogRead E)
          → l.first_read ≡ true
          → Copied v.at v.written size count
              (suc v.lo)
              v.hi
              0
              (record (drop_start (v.at v.lo) l) { first_read = false })
              r
          → HasRead l v.written v.lo reads
          → Ordered r.log puts (reads ++ r.copied)
      go_first r t c (inr (f, pos, e)) = absurd (ground (arith, f, t))
      go_first r t c (inl (t', z, e)) =
          copied-Ordered size count (suc v.lo) l
            (record (drop_start (v.at v.lo) l) { first_read = false }) puts reads r v c
            ((drop_start_flags v.at v.written size count some_size (v.at v.lo) l).0 ∙ v.is_open)
            refl (omega arith) (let q : suc v.lo - 1 ≡ 0 = omega arith in rw (e, q) refl)

      go :
          (r : LogRead E)
          → Read v.at v.written size count some_size v.lo v.hi l r
          → Ordered r.log puts (reads ++ r.copied)
      go r (goes why c) = go_on r why c v.has_read
      go r (begins first c) = go_first r first c v.has_read
