-- ===== src/MacOwner/Dropped.antt =====
-- What the destructor of an asynchronous socket closes on macOS, and what an assignment does not.
use acpp_network.Prelude.{
  ℕ, ◌≡◌, refl, ap, sym, subst, ◌∙◌, ◌≢◌, [], Option, none, some, ◌==◌, ==→eq, if_cases,
  if◌then◌else◌,
}
use acpp_network.AsyncSocket.{put}
use acpp_network.AsyncSocket.Put.{put-same, put-other}
use acpp_network.MacSocket.{Env, SocketBasePimpl, close}
use acpp_network.MacOwner.{Owners, moved, move_assign, close_pimpl, close_owner, destroy}

module _ (e : Env) where
  moved-state : (x : Option SocketBasePimpl) (o : Owners e) → (moved e x o).1 ≡ o
  unfolding moved
  moved-state none o = refl
  moved-state (some s) o = refl

  -- The state after an assignment.
  abbrev Handed : ℕ → ℕ → Owners e → Owners e → Type 0
  Handed a other o t =
      (t.kernel ≡ o.kernel) × (t.pimpl_ a ≡ o.pimpl_ other) × (t.pimpl_ other ≡ none)

  -- An assignment from another object hands its implementation over and calls nothing of the system, so a
  -- descriptor that the object held is not closed.
  pub move_assign-Handed :
      (a other : ℕ) (o : Owners e) → a ≢ other → Handed a other o (move_assign e a other o).1
  unfolding move_assign
  move_assign-Handed a other o ne =
      let t = put a (o.pimpl_ other) o.pimpl_ in
      let o' : Owners e = record o { pimpl_ = put other none t } in
      let handed : Handed a other o (if a == other then o else o') =
        if_cases (Handed a other o) (a == other) (λ same. absurd (ne (==→eq a other same)))
          (λ differ. (
            refl,
            put-other other none t a (λ e'. ne (sym e')) ∙ put-same a (o.pimpl_ other) o.pimpl_,
            put-same other none t,
          )) in
      subst (Handed a other o) (sym (moved-state (o.pimpl_ other) (if a == other then o else o')))
        handed

  close_pimpl-kernel :
      (a : ℕ) (x : Option SocketBasePimpl) (o t : Owners e)
      → t.kernel ≡ o.kernel
      → (close_pimpl e a x t).kernel ≡ (close_pimpl e a x o).kernel
  unfolding close_pimpl
  close_pimpl-kernel a none o t h = h
  close_pimpl-kernel a (some s) o t h =
      ap (λ k. (close e (record { sock = s; kernel = k; calls = [] })).kernel) h

  close_pimpl-other :
      (a b : ℕ) (x : Option SocketBasePimpl) (o : Owners e)
      → a ≢ b
      → (close_pimpl e a x o).pimpl_ b ≡ o.pimpl_ b
  unfolding close_pimpl
  close_pimpl-other a b none o ne = refl
  close_pimpl-other a b (some s) o ne =
      put-other a (some ((close e (record { sock = s; kernel = o.kernel; calls = [] })).sock))
        o.pimpl_ b ne

  destroy-empty : (b : ℕ) (o : Owners e) → o.pimpl_ b ≡ none → (destroy e b o).kernel ≡ o.kernel
  unfolding destroy close_owner close_pimpl
  destroy-empty b o empty = ap (λ x. (close_pimpl e b x o).kernel) empty

  -- After an assignment from another object, the destructors of both close what the other object held, and
  -- nothing else: a descriptor that the first one held is never closed.
  pub move_assign-unclosed :
      (a other : ℕ) (o : Owners e)
      → a ≢ other
      → (destroy e other (destroy e a (move_assign e a other o).1)).kernel
        ≡ (close_pimpl e a (o.pimpl_ other) o).kernel
  unfolding destroy close_owner
  move_assign-unclosed a other o ne =
      let t = (move_assign e a other o).1 in
      let h = move_assign-Handed a other o ne in
      let gone : (destroy e a t).pimpl_ other ≡ none =
        put-other a none (close_owner e a t).pimpl_ other ne
        ∙ close_pimpl-other a other (t.pimpl_ a) t ne
        ∙ h.2 in
      destroy-empty other (destroy e a t) gone
      ∙ ap (λ x. (close_pimpl e a x t).kernel) h.1
      ∙ close_pimpl-kernel a (o.pimpl_ other) o t h.0
