-- ===== src/Cpufreq/Users.antt =====
-- Module/seeker-cpufreq/user.c: who is told when a frequency changes. The list holds pointers to the
-- callers' structures, so these stand in a store; each function runs under `user_lock`.
pub mod Registry
use seeker_scheduler.Common.{
  ℕ, zero, suc, ◌+◌, ◌%◌, ◌^◌, Bool, true, false, Option, none, some, List, [], ◌∷◌, ◌++◌, ◌==◌,
  if◌then◌else◌, ℤ, pos, negsuc, eqb_ℤ, update,
}

-- struct scpufreq_user. A callback takes the cpu and its new state and runs on the callers' state `S`.
pub record User (S : Type 0) : Type 0 where
  pub inform : Option (ℕ → ℕ → S → S × ℤ)
  pub user_id : ℕ

-- `user_head`, whose nodes are their pointers to users, and `current_highest_id`, 32 bits.
pub record Users (S : Type 0) : Type 0 where
  pub user_head : List ℕ
  pub user : ℕ → User S
  pub current_highest_id : ℕ

abbrev pub err_user_mem_low : ℤ
err_user_mem_low = negsuc 1

abbrev pub err_inv_user : ℤ
err_inv_user = negsuc 2

abbrev pub err_inv_callback : ℤ
err_inv_callback = negsuc 3

module _ {S : Type 0} where
  unfoldable pub has_inform : User S → Bool
  has_inform u = elim u.inform [ none ↦ false | some f ↦ true ]

  -- The node is linked in at the end, and the caller's structure gets the next id.
  link_user : ℕ → Users S → Users S
  link_user u us = record us {
    user_head = us.user_head ++ u ∷ [];
    user = update us.user u (record (us.user u) { user_id = us.current_highest_id });
    current_highest_id = (us.current_highest_id + 1) % 2 ^ 32;
  }

  -- `none` is a null pointer; `allocated` is whether `kmalloc` gives a node.
  pub create_user : (allocated : Bool) → Option ℕ → Users S → Users S × ℤ
  create_user allocated none us = (us, err_inv_user)
  create_user allocated (some u) us =
      if has_inform (us.user u)
      then if allocated then (link_user u us, pos 0) else (us, err_user_mem_low)
      else (us, err_inv_callback)

  -- The list without its first node whose user has the id.
  pub unlink : (ℕ → User S) → ℕ → List ℕ → Option (List ℕ)
  unlink user id [] = none
  unlink user id (i ∷ rest) =
      if (user i).user_id == id
      then some rest
      else elim (unlink user id rest) [ none ↦ none | some r ↦ some (i ∷ r) ]

  pub destroy_user : Option ℕ → Users S → Users S × ℤ
  destroy_user none us = (us, err_inv_user)
  destroy_user (some u) us =
      if has_inform (us.user u)
      then elim (unlink us.user (us.user u).user_id us.user_head) [
        | none ↦ (us, err_inv_user)
        | some rest ↦ (record us { user_head = rest }, pos 0)
      ]
      else (us, err_inv_callback)

  pub register_scpufreq_user : (allocated : Bool) → Option ℕ → Users S → Users S × ℤ
  register_scpufreq_user allocated u us = create_user allocated u us

  pub deregister_scpufreq_user : Option ℕ → Users S → Users S × ℤ
  deregister_scpufreq_user u us = destroy_user u us

  -- One callback; what it returns is only reported.
  call_inform : (cpu state : ℕ) → User S → S → S
  call_inform cpu state u σ = elim u.inform [ none ↦ σ | some f ↦ (f cpu state σ).0 ]

  inform_all : (cpu state : ℕ) → (ℕ → User S) → List ℕ → S → S
  unfolding call_inform
  inform_all cpu state user [] σ = σ
  inform_all cpu state user (i ∷ rest) σ =
      inform_all cpu state user rest (call_inform cpu state (user i) σ)

  -- Every registered user is called, in the order of registration.
  unfoldable pub inform_freq_change : (cpu state : ℕ) → Users S → S → S
  unfolding inform_all
  inform_freq_change cpu state us σ = inform_all cpu state us.user us.user_head σ

  pub init_user_interface : Users S → Users S
  init_user_interface us = record us { user_head = [] }

  pub exit_user_interface : Users S → Users S
  exit_user_interface us = record us { user_head = [] }
