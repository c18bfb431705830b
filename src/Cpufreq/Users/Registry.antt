-- ===== src/Cpufreq/Users/Registry.antt =====
-- Registering and deregistering.
use seeker_scheduler.Common.{
  ℕ, suc, ◌+◌, ◌<◌, ◌%◌, ◌^◌, ◌≡◌, ◌≢◌, refl, ap, true, false, some, List, [], ◌∷◌, ◌++◌, pos,
  update, arith, sym, subst, ◌∙◌,
}
use seeker_scheduler.Cpufreq.Users.{
  User, Users, link_user, create_user, unlink, destroy_user, register_scpufreq_user,
  deregister_scpufreq_user, has_inform, err_user_mem_low,
}

-- The pointer is not in the list.
abbrev pub NotIn : ℕ → List ℕ → Type 0
NotIn u [] = Unit {0}
NotIn u (i ∷ rest) = (i ≢ u) × NotIn u rest

module _ {S : Type 0} where
  -- Each user in the list has an id below `n`.
  abbrev pub IdsBelow : (ℕ → User S) → ℕ → List ℕ → Type 0
  IdsBelow user n [] = Unit {0}
  IdsBelow user n (i ∷ rest) = ((user i).user_id < n) × IdsBelow user n rest

  -- `u` is not in the list, and no user in it has the id of `u`.
  abbrev pub Absent : (ℕ → User S) → ℕ → List ℕ → Type 0
  Absent user u [] = Unit {0}
  Absent user u (i ∷ rest) = (i ≢ u) × ((user i).user_id ≢ (user u).user_id) × Absent user u rest

  -- No user is in the list twice, and no two share an id.
  abbrev pub Distinct : (ℕ → User S) → List ℕ → Type 0
  Distinct user [] = Unit {0}
  Distinct user (i ∷ rest) = Absent user i rest × Distinct user rest

  pub record Valid (us : Users S) : Type 0 where
    pub below : IdsBelow us.user us.current_highest_id us.user_head
    pub distinct : Distinct us.user us.user_head

  -- The structure of a user outside the list changes nothing for the list.
  IdsBelow-update :
      (user : ℕ → User S) (n u : ℕ) (v : User S) (xs : List ℕ)
      → NotIn u xs
      → IdsBelow user n xs
      → IdsBelow (update user u v) (suc n) xs
  IdsBelow-update user n u v [] h b = tt
  IdsBelow-update user n u v (i ∷ xs) h b = ground (arith, IdsBelow-update user n u v xs h.1 b.1)

  Absent-update :
      (user : ℕ → User S) (i u : ℕ) (v : User S) (xs : List ℕ)
      → i ≢ u
      → NotIn u xs
      → Absent user i xs
      → Absent (update user u v) i xs
  Absent-update user i u v [] ne h a = tt
  Absent-update user i u v (j ∷ xs) ne h a = ground (arith, Absent-update user i u v xs ne h.1 a.2)

  -- A fresh id at the end of a list of smaller ones.
  Absent-append :
      (user : ℕ → User S) (i u : ℕ) (xs : List ℕ)
      → i ≢ u
      → (user i).user_id ≢ (user u).user_id
      → Absent user i xs
      → Absent user i (xs ++ u ∷ [])
  Absent-append user i u [] ne d a = (λ e. ne (sym e), λ e. d (sym e), tt)
  Absent-append user i u (j ∷ xs) ne d a = (a.0, a.1, Absent-append user i u xs ne d a.2)

  link-Distinct :
      (user : ℕ → User S) (n u : ℕ) (xs : List ℕ)
      → NotIn u xs
      → IdsBelow user n xs
      → Distinct user xs
      → Distinct (update user u (record (user u) { user_id = n })) (xs ++ u ∷ [])
  link-Distinct user n u [] h b d = (tt, tt)
  link-Distinct user n u (i ∷ xs) h b d =
      let v : User S = record (user u) { user_id = n } in
      (
        Absent-append (update user u v) i u xs h.0 (ground arith)
            (Absent-update user i u v xs h.0 h.1 d.0),
        link-Distinct user n u xs h.1 b.1 d.1,
      )

  IdsBelow-append :
      (user : ℕ → User S) (n u : ℕ) (xs : List ℕ)
      → (user u).user_id < n
      → IdsBelow user n xs
      → IdsBelow user n (xs ++ u ∷ [])
  IdsBelow-append user n u [] h b = (h, tt)
  IdsBelow-append user n u (i ∷ xs) h b = (b.0, IdsBelow-append user n u xs h b.1)

  unlink-append_self :
      (user : ℕ → User S) (n u : ℕ) (v : User S) (xs : List ℕ)
      → v.user_id ≡ n
      → NotIn u xs
      → IdsBelow user n xs
      → unlink (update user u v) n (xs ++ u ∷ []) ≡ some xs
  unfolding unlink
  unlink-append_self user n u v [] e h b = ground arith
  unlink-append_self user n u v (i ∷ xs) e h b =
      ground (arith, unlink-append_self user n u v xs e h.1 b.1)

  create_user_lem :
      (us : Users S) (u : ℕ)
      → has_inform (us.user u) ≡ true
      → create_user true (some u) us ≡ (link_user u us, pos 0)
  unfolding create_user
  create_user_lem us u f = rw f

  destroy_user_lem :
      (us : Users S) (u : ℕ) (rest : List ℕ)
      → has_inform (us.user u) ≡ true
      → unlink us.user (us.user u).user_id us.user_head ≡ some rest
      → destroy_user (some u) us ≡ (record us { user_head = rest }, pos 0)
  unfolding destroy_user
  destroy_user_lem us u rest f e = rw (f, e)

  has_inform-link :
      (us : Users S) (u : ℕ) → has_inform ((link_user u us).user u) ≡ has_inform (us.user u)
  unfolding link_user has_inform
  has_inform-link us u = ground arith

  destroy-link :
      (us : Users S) (u : ℕ)
      → has_inform (us.user u) ≡ true
      → NotIn u us.user_head
      → Valid us
      → destroy_user (some u) (link_user u us)
        ≡ (record (link_user u us) { user_head = us.user_head }, pos 0)
  unfolding link_user
  destroy-link us u f h v =
      destroy_user_lem (link_user u us) u us.user_head (has_inform-link us u ∙ f) (
        ground (
          arith,
          unlink-append_self us.user us.current_highest_id u
              (record (us.user u) { user_id = us.current_highest_id }) us.user_head refl h v.below,
        ))

  link-Valid :
      (us : Users S) (u : ℕ)
      → NotIn u us.user_head
      → us.current_highest_id + 1 < 2 ^ 32
      → Valid us
      → Valid (link_user u us)
  unfolding link_user
  link-Valid us u h room v =
      let n = us.current_highest_id in
      let w : User S = record (us.user u) { user_id = n } in
      let e : suc n ≡ (n + 1) % 2 ^ 32 = omega arith in
      record {
        below =
            subst (λ k. IdsBelow (update us.user u w) k (us.user_head ++ u ∷ [])) e
              (IdsBelow-append (update us.user u w) (suc n) u us.user_head (ground arith)
                (IdsBelow-update us.user n u w us.user_head h v.below));
        distinct = link-Distinct us.user n u us.user_head h v.below v.distinct;
      }

  -- From a list without repetitions whose ids are below the next one: registering a user that has a
  -- callback and is not in the list, while ids and memory last, succeeds: it is told of
  -- changes after all others, under an id of its own; and deregistering it gives the old list back.
  pub register_deregister :
      (us : Users S) (u : ℕ)
      → has_inform (us.user u) ≡ true
      → NotIn u us.user_head
      → us.current_highest_id + 1 < 2 ^ 32
      → Valid us
      → let (us', code) = register_scpufreq_user true (some u) us in
        (code ≡ pos 0)
        × (us'.user_head ≡ us.user_head ++ u ∷ [])
        × Valid us'
        × ((deregister_scpufreq_user (some u) us').0.user_head ≡ us.user_head)
        × ((deregister_scpufreq_user (some u) us').1 ≡ pos 0)
  unfolding register_scpufreq_user deregister_scpufreq_user link_user
  register_deregister us u f h room v =
      rw (create_user_lem us u f, destroy-link us u f h v)
        (refl, refl, link-Valid us u h room v, refl, refl)

  -- No user in the list has the id.
  abbrev pub NoneHas : (ℕ → User S) → ℕ → List ℕ → Type 0
  NoneHas user id [] = Unit {0}
  NoneHas user id (i ∷ rest) = ((user i).user_id ≢ id) × NoneHas user id rest

  unlink_first :
      (user : ℕ → User S) (id i : ℕ) (before rest : List ℕ)
      → NoneHas user id before
      → (user i).user_id ≡ id
      → unlink user id (before ++ i ∷ rest) ≡ some (before ++ rest)
  unfolding unlink
  unlink_first user id i [] rest h e = ground arith
  unlink_first user id i (j ∷ before) rest h e =
      ground (arith, unlink_first user id i before rest h.1 e)

  -- The registration of a structure that has a callback and is not in the list fails if no memory is
  -- left, and changes nothing: the structure keeps the id it held. If it is deregistered all the same, that
  -- succeeds, and the first user in the list that has the same id, another one, is taken out.
  pub deregister_stranger :
      (us : Users S) (u i : ℕ) (before rest : List ℕ)
      → has_inform (us.user u) ≡ true
      → NotIn u us.user_head
      → us.user_head ≡ before ++ i ∷ rest
      → NoneHas us.user (us.user u).user_id before
      → (us.user i).user_id ≡ (us.user u).user_id
      → let (failed, code) = register_scpufreq_user false (some u) us in
        (code ≡ err_user_mem_low)
        × (failed ≡ us)
        × ((deregister_scpufreq_user (some u) failed).0.user_head ≡ before ++ rest)
        × ((deregister_scpufreq_user (some u) failed).1 ≡ pos 0)
  unfolding register_scpufreq_user deregister_scpufreq_user create_user
  deregister_stranger us u i before rest f absent e others same =
      let found = unlink_first us.user (us.user u).user_id i before rest others same in
      let gone =
        destroy_user_lem us u (before ++ rest) f
          (ap (unlink us.user (us.user u).user_id) e ∙ found) in
      rw f (refl, refl, ap (λ r. r.0.user_head) gone, ap (λ r. r.1) gone)
