-- ===== src/Log/Queue.antt =====
-- The list of blocks as a queue of entries.
use seeker_scheduler.Common.{
  ℕ, suc, ◌≤◌, ◌<◌, ◌≡◌, ◌≢◌, refl, ap, ◌∙◌, sym, inl, inr, Bool, Bool-cases, not, ◌||◌, true,
  false, Option, none, some, if◌then◌else◌, fun_ext, ◌==◌, update, update_same, update_other,
  ==_iff, arith,
}
use seeker_scheduler.Log.{
  Block, Log, set_next, take_block, get_block, get_from, get_log, put_log, put_entry, log_entry,
  log_free, drop_start,
}

-- The blocks are numbered in the order in which they were put, from 0 on, the first one that
-- `log_init` makes: `at` has their addresses, `written` their entries. Those from `lo` to `hi` are in
-- the list, they are the allocated ones, and they are distinct.
pub record Holds {E : Type 0} (at : ℕ → ℕ) (written : ℕ → E) (lo hi : ℕ) (l : Log E) : Type 0 where
  pub order : lo ≤ hi
  pub first : l.start_log ≡ some (at lo)
  pub last : l.current_log ≡ some (at hi)
  pub link : (i : ℕ) → lo ≤ i → i < hi → (l.blocks (at i)).next ≡ some (at (suc i))
  pub ends : (l.blocks (at hi)).next ≡ none
  pub alive : (i : ℕ) → lo ≤ i → i ≤ hi → l.live (at i) ≡ true
  pub distinct : (i j : ℕ) → lo ≤ i → i < j → j ≤ hi → at i ≢ at j
  pub owned : (p : ℕ) → l.live p ≡ true → (i : ℕ) × (lo ≤ i) × (i ≤ hi) × (at i ≡ p)
  pub content : (i : ℕ) → lo ≤ i → i ≤ hi → (l.blocks (at i)).entry ≡ written i
  pub has_cache : l.cache ≡ true

later : (at : ℕ → ℕ) (lo i : ℕ) → lo ≤ i → at lo ≢ at i → suc lo ≤ i
later at lo i g ne = elim (Bool-cases (lo == i)) [
  | inl same ↦ absurd (ne (ap at ((==_iff lo i).0 same)))
  | inr other ↦ ground arith
]

-- Another log with the same list.
pub record SameList {E : Type 0} (l m : Log E) : Type 0 where
  pub blocks_same : m.blocks ≡ l.blocks
  pub live_same : m.live ≡ l.live
  pub start_same : m.start_log ≡ l.start_log
  pub current_same : m.current_log ≡ l.current_log
  pub cache_same : m.cache ≡ l.cache

pub SameList-Holds :
    {E : Type 0} (at : ℕ → ℕ) (written : ℕ → E) (lo hi : ℕ) (l m : Log E)
    → SameList l m
    → Holds at written lo hi l
    → Holds at written lo hi m
SameList-Holds at written lo hi l m s v = record {
  order = v.order;
  first = s.start_same ∙ v.first;
  last = s.current_same ∙ v.last;
  link = λ i g h. ap (λ b. (b (at i)).next) s.blocks_same ∙ v.link i g h;
  ends = ap (λ b. (b (at hi)).next) s.blocks_same ∙ v.ends;
  alive = λ i g h. ap (λ f. f (at i)) s.live_same ∙ v.alive i g h;
  distinct = v.distinct;
  owned = λ p e. v.owned p (sym (ap (λ f. f p) s.live_same) ∙ e);
  content = λ i g h. ap (λ b. (b (at i)).entry) s.blocks_same ∙ v.content i g h;
  has_cache = s.cache_same ∙ v.has_cache;
}

module _ {E : Type 0} where
  get_log-some :
      (l : Log E) (c p : ℕ)
      → l.current_log ≡ some c
      → l.dev_open ≡ true
      → l.cache ≡ true
      → get_log (some p) l ≡ (record (take_block p l) { locked = true }, some p)
  unfolding get_log get_from get_block
  get_log-some l c p h o a = ap (λ x. get_from (some p) x l) h ∙ rw (o, a) refl

  -- The blocks with the new one filled, and then linked behind `c`.
  abbrev fill : ℕ → E → (ℕ → Block E) → ℕ → Block E
  fill p e blocks = update blocks p (record { entry = e; next = none })

  abbrev link_at : (c p : ℕ) → Log E → (ℕ → Block E) → Log E
  link_at c p l blocks = record l {
    live = update l.live p true;
    blocks = update blocks c (set_next (some p) (blocks c));
    current_log = some p;
    locked = false;
  }

  abbrev put_at : (c p : ℕ) → E → Log E → Log E
  put_at c p e l = link_at c p l (fill p e l.blocks)

  fill_twice :
      (p : ℕ) (e : E) (blocks : ℕ → Block E)
      → update
          (update blocks p (set_next none (blocks p)))
          p
          (record (update blocks p (set_next none (blocks p)) p) { entry = e })
        ≡ fill p e blocks
  fill_twice p e blocks = fun_ext (λ j. ground arith)

  log_entry_put :
      (l : Log E) (c p : ℕ) (e : E)
      → l.current_log ≡ some c
      → l.dev_open ≡ true
      → l.cache ≡ true
      → log_entry (some p) e l ≡ put_at c p e l
  unfolding log_entry put_entry put_log take_block
  log_entry_put l c p e h o a =
      ap (put_entry e) (get_log-some l c p h o a)
      ∙ rw h (ap (link_at c p l) (fill_twice p e l.blocks))

  pub drop_start-Holds :
      (at : ℕ → ℕ) (written : ℕ → E) (lo hi : ℕ) (l : Log E)
      → lo < hi
      → Holds at written lo hi l
      → Holds at written (suc lo) hi (drop_start (at lo) l)
  unfolding drop_start log_free
  drop_start-Holds at written lo hi l h v = rw v.has_cache (record {
    order = h;
    first = v.link lo (omega arith) h;
    last = v.last;
    link = λ i g s. v.link i (omega arith) s;
    ends = v.ends;
    alive = λ i g s.
        ground (arith, v.distinct lo i (omega arith) (omega arith) s, v.alive i (omega arith) s);
    distinct = λ i j g s t. v.distinct i j (omega arith) s t;
    owned = λ p o.
        let (i, g, s, e) = v.owned p (ground arith) in
        (i, later at lo i g (λ q. ground (arith, e)), s, e);
    content = λ i g s. v.content i (omega arith) s;
    has_cache = refl;
  })

  module _ (l : Log E) (c p : ℕ) (e : E) (ne : c ≢ p) where
    abbrev linked : ℕ → Block E
    linked = (put_at c p e l).blocks

    linked_new : linked p ≡ record { entry = e; next = none }
    linked_new = update_other (fill p e l.blocks) c p _ ne ∙ update_same l.blocks p _

    linked_last : linked c ≡ set_next (some p) (l.blocks c)
    linked_last =
        update_same (fill p e l.blocks) c _
        ∙ ap (set_next (some p)) (update_other l.blocks p c _ (λ q. ne (sym q)))

    linked_old : (a : ℕ) → c ≢ a → p ≢ a → linked a ≡ l.blocks a
    linked_old a nc np =
        update_other (fill p e l.blocks) c a _ nc
        ∙ update_other l.blocks p a (record { entry = e; next = none }) np

  pub log_entry-Holds :
      (at : ℕ → ℕ) (written : ℕ → E) (lo hi p : ℕ) (e : E) (l : Log E)
      → l.dev_open ≡ true
      → l.live p ≡ false
      → Holds at written lo hi l
      → Holds
          (update at (suc hi) p)
          (update written (suc hi) e)
          lo
          (suc hi)
          (log_entry (some p) e l)
  log_entry-Holds at written lo hi p e l o fresh v =
      rw (log_entry_put l (at hi) p e v.last o v.has_cache) (record {
        order = omega (arith, v.order);
        first = v.first ∙ ap some (sym (old lo (omega arith) v.order));
        last = ap some (sym new);
        link = λ i g s. elim (Bool-cases (i == hi)) [
          | inl end ↦
              let q : i ≡ hi = ground arith in
              rw
                (
                  q,
                  old hi v.order (omega arith),
                  linked_last l (at hi) p e (apart hi v.order (omega arith)),
                  new,
                )
                refl
          | inr inner ↦
              let h : i < hi = ground arith in
              rw
                (
                  old i g (omega arith),
                  old (suc i) (omega arith) h,
                  linked_old l (at hi) p e (apart hi v.order (omega arith)) (at i)
                      (λ q. v.distinct i hi g h (omega arith) (sym q))
                      (λ q. apart i g (omega arith) (sym q)),
                )
                (v.link i g h)
        ];
        ends = rw (new, linked_new l (at hi) p e (apart hi v.order (omega arith))) refl;
        alive = λ i g s. ground (arith, v.alive i g);
        distinct = λ i j g s t. elim (Bool-cases (j == suc hi)) [
          | inl end ↦
              let q : j ≡ suc hi = ground arith in
              rw (q, new, old i g (omega arith)) (apart i g (omega arith))
          | inr inner ↦
              let h : j ≤ hi = ground arith in
              rw (old i g (omega arith), old j (omega arith) h) (v.distinct i j g s h)
        ];
        owned = λ q h. elim (Bool-cases (p == q)) [
          | inl same ↦ (suc hi, omega (arith, v.order), omega arith, new ∙ (==_iff p q).0 same)
          | inr other ↦
              let (i, g, s, e) = v.owned q (ground arith) in (i, g, omega arith, old i g s ∙ e)
        ];
        content = λ i g s. elim (Bool-cases (i == suc hi)) [
          | inl end ↦
              let q : i ≡ suc hi = ground arith in
              rw (q, new, linked_new l (at hi) p e (apart hi v.order (omega arith)))
                (sym (update_same written (suc hi) e))
          | inr inner ↦
              let h : i ≤ hi = ground arith in
              rw (old i g h, update_other written (suc hi) i e (λ q. omega arith)) (kept i g h)
        ];
        has_cache = v.has_cache;
      })
    where
      new : update at (suc hi) p (suc hi) ≡ p
      new = update_same at (suc hi) p

      old : (i : ℕ) → lo ≤ i → i ≤ hi → update at (suc hi) p i ≡ at i
      old i g s = update_other at (suc hi) i p (λ q. omega arith)

      apart : (i : ℕ) → lo ≤ i → i ≤ hi → at i ≢ p
      apart i g s q = ground (arith, ap l.live q, v.alive i g s)

      kept :
          (i : ℕ)
          → lo ≤ i
          → i ≤ hi
          → (linked l (at hi) p e (apart hi v.order (omega arith)) (at i)).entry ≡ written i
      kept i g s = elim (Bool-cases (i == hi)) [
        | inl end ↦
            let q : i ≡ hi = ground arith in
            rw (q, linked_last l (at hi) p e (apart hi v.order (omega arith)))
              (v.content hi v.order (omega arith))
        | inr inner ↦
            let h : i < hi = ground arith in
            rw
              (linked_old l (at hi) p e (apart hi v.order (omega arith)) (at i)
                (λ q. v.distinct i hi g h (omega arith) (sym q)) (λ q. apart i g s (sym q)))
              (v.content i g s)
      ]

  pub log_entry_flags :
      (at : ℕ → ℕ) (written : ℕ → E) (lo hi p : ℕ) (e : E) (l : Log E)
      → l.dev_open ≡ true
      → Holds at written lo hi l
      → ((log_entry (some p) e l).dev_open ≡ l.dev_open)
        × ((log_entry (some p) e l).first_read ≡ l.first_read)
  log_entry_flags at written lo hi p e l o v =
      rw (log_entry_put l (at hi) p e v.last o v.has_cache) (refl, refl)

  -- Without a block nothing changes.
  get_from_none : (current : Option ℕ) (l : Log E) → get_from none current l ≡ (l, none)
  unfolding get_from get_block
  get_from_none none l = refl
  get_from_none (some c) l = either (not l.dev_open || not l.cache) (l, none)
    where
      either : {A : Type 0} (b : Bool) (x : A) → (if b then x else x) ≡ x
      either true x = refl
      either false x = refl

  pub log_entry_none : (e : E) (l : Log E) → log_entry none e l ≡ l
  unfolding log_entry put_entry put_log get_log
  log_entry_none e l = ap (put_entry e) (get_from_none l.current_log l)
