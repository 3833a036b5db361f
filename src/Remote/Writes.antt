-- ===== src/Remote/Writes.antt =====
-- Steps that write a link, or a word that is no node's.
use native.Mathlib.Decide.{ℕ_discrete}
use allocazam.Prelude.{ℕ, ◌≡◌, sym, ◌∙◌, ap, false, arith, ◌==◌, ==_self}
use allocazam.Memory.{write}
use allocazam.Remote.{loaded, linked, write_link}
use allocazam.Pool.Tally.{tally, Chain-write}
use allocazam.Remote.Pushes.{System, move_to, node_of, IsUnused, IsParked}
use allocazam.Remote.Nodes.{moved_here, moved_other, keeps, loaded-real, other_node}

module _ (s : System) (is : IsParked s) where
  pub links-IsParked :
      (i n seen : ℕ)
      → s.threads i ≡ loaded n seen
      → IsParked (record s {
        stack = write_link s.stack n seen;
        threads = move_to s.threads i (linked n seen);
      })
  unfolding write_link
  links-IsParked i n seen e =
      let ne = loaded-real s is i n seen e in
      let here : node_of (s.threads i) ≡ n = ap node_of e in
      let out : tally n s.parked ≡ 0 = rw here at (is.apart i (λ null. ne (sym here ∙ null))) in
      keeps s is i (linked n seen) (write s.stack.memory n seen) (sym here) ne
        (Chain-write s.stack.memory n seen s.stack.head s.parked out is.chain)
        (λ j m v at_j. elim (ℕ_discrete j i) [
          | yes same ↦
              let mine : linked n seen ≡ linked m v =
                sym (moved_here s.threads i (linked n seen))
                ∙ ap (move_to s.threads i (linked n seen)) (sym same)
                ∙ at_j in
              let node : m ≡ n = cc in let value : seen ≡ v = cc in rw (node, ==_self n) value
          | no other ↦
              let theirs = sym (moved_other s.threads i (linked n seen) j other) ∙ at_j in
              let apart : (n == m) ≡ false =
                ground (arith, other_node s is i j n m here (ap node_of theirs) ne other) in
              rw apart (is.link j m v theirs)
        ])

  pub stores-IsParked :
      (a v : ℕ) → IsUnused s a → IsParked (record s { stack = write_link s.stack a v })
  unfolding write_link
  stores-IsParked a v (ne, out, unheld) = record {
    chain = Chain-write s.stack.memory a v s.stack.head s.parked out is.chain;
    once = is.once;
    apart = is.apart;
    distinct = is.distinct;
    real = is.real;
    link = λ i n seen e.
        let apart : (a == n) ≡ false =
          ground (arith, λ (same : n ≡ a). unheld i (ap node_of e ∙ same)) in
        rw apart (is.link i n seen e);
  }
