-- ===== src/Runner/Heap/Open.antt =====
-- A run that is about to be changed: an allocated one, or a free one that leaves its bin.
use native.Mathlib.Decide.{ℕ_discrete}
use allocazam.Prelude.{
  ℕ, ◌+◌, ◌≡◌, ◌≢◌, refl, sym, ap, ◌∙◌, List, inl, inr, true, false, arith, ==_self,
}
use allocazam.Memory.{Memory}
use allocazam.Runner.Runs.{Runner, unlink_free, prev_is_free}
use allocazam.Runner.Heap.{Heap, set, IsTiled, IsRunner, IsHole, IsClients, fields}
use allocazam.Runner.Heap.Take.{Unlinked, unlinked, rest}
use allocazam.Runner.Heap.Join.{set-same, set-other}

flag_kept : (mem mem' : Memory) (h : ℕ) → mem' h ≡ mem h → prev_is_free mem' h ≡ prev_is_free mem h
unfolding prev_is_free
flag_kept mem mem' h same = rw same refl

module _ (r : Runner) (H : Heap) (lists : ℕ → List ℕ) (is : IsRunner r H lists) where
  tile : IsTiled r.memory H 0
  tile = is.tiled

  pub real : (x : ℕ) → H.there x ≡ true → x ≢ 0
  real x there = (tile.aligned x there).2

  -- No two neighbours are free.
  pub never_both : (x : ℕ) → H.there x ≡ true → H.free x ≡ true → H.free (x + H.size x) ≡ true → ⊥
  never_both x there free free' =
      let at_null = tile.alone x there free (real x there) free' in
      real x there (omega (arith, at_null))

  module _ (h : ℕ) (here : H.there h ≡ true) (used : H.free h ≡ false)
      (some_bytes : H.size h ≢ 0) where
    other : (x : ℕ) → x ≢ h → set H.free h true x ≡ H.free x
    other x d = set-other H.free h x true d

    still : (x : ℕ) → H.free x ≡ true → set H.free h true x ≡ true
    still x free = elim (ℕ_discrete x h) [
      | yes e ↦ rw (e, ==_self h) refl
      | no d ↦ other x d ∙ free
    ]

    not_used : (x : ℕ) → H.free x ≡ true → x ≢ h
    not_used x free e = absurd (let same : H.free x ≡ H.free h = ap H.free e in cc)

    -- An allocated run.
    pub open_used : IsHole r (record H { free = set H.free h true }) lists h
    open_used = record {
      runs = record {
        tiled = record {
          word = λ x there d. rw (other x d) (tile.word x there (real x there));
          aligned = tile.aligned;
          sized = tile.sized;
          last = λ x there empty.
              other x (λ e. some_bytes (sym (ap H.size e) ∙ empty)) ∙ tile.last x there empty;
          inside = tile.inside;
          next = tile.next;
          known = λ x there ne d some_next.
              rw (other x d) (tile.known x there ne (real x there) some_next);
          prior = λ x there ne before.
              let (p, there', free, e) = tile.prior x there ne before in
              (p, there', still p free, e);
          apart = tile.apart;
          alone = λ x there f d f'. elim (ℕ_discrete (x + H.size x) h) [
            | yes e ↦ e
            | no d' ↦
                absurd
                  (never_both x there (sym (other x d) ∙ f) (sym (other (x + H.size x) d') ∙ f'))
          ];
          footer = λ x there f d. tile.footer x there (sym (other x d) ∙ f) (real x there);
        };
        listed = is.listed;
        sound = λ i a listed.
            let (there, free, bin, d) = is.sound i a listed in
            (there, still a free, bin, not_used a free);
        complete = λ a there f d. is.complete a there (sym (other a d) ∙ f) (real a there);
      };
      here = here;
      counts_free = set-same H.free h true;
      some_size = elim (tile.sized h here) [
        | inl empty ↦ absurd (some_bytes empty)
        | inr enough ↦ enough
      ];
      preceded = (fields r H lists 0 is h here (real h here)).2;
    }

  module _ (h : ℕ) (here : H.there h ≡ true) (free : H.free h ≡ true) where
    abbrev pub others : ℕ → List ℕ
    others = rest r H lists 0 is h here free (real h here)

    un : Unlinked r H lists others 0 h
    un = unlinked r H lists 0 is h here free (real h here)

    -- A free run.
    pub open_free : IsHole (unlink_free r h) H others h
    open_free = record {
      runs = record {
        tiled = record {
          word = λ x there d. un.tiled.word x there (real x there);
          aligned = tile.aligned;
          sized = tile.sized;
          last = tile.last;
          inside = tile.inside;
          next = tile.next;
          known = λ x there ne d some_next. tile.known x there ne (real x there) some_next;
          prior = tile.prior;
          apart = tile.apart;
          alone = λ x there f d f'. absurd (never_both x there f f');
          footer = λ x there f d. un.tiled.footer x there f (real x there);
        };
        listed = un.listed;
        sound = λ i a listed.
            let (before, d) = un.kept i a listed in
            let (there, f, bin, d') = is.sound i a before in (there, f, bin, d);
        complete = λ a there f d. un.keeps _ a (is.complete a there f (real a there)) d;
      };
      here = here;
      counts_free = free;
      some_size = elim (tile.sized h here) [
        | inl empty ↦ absurd (let used = tile.last h here empty in cc)
        | inr enough ↦ enough
      ];
      preceded =
          flag_kept r.memory (unlink_free r h).memory h
            (un.headers h h here (omega arith) (omega arith))
          ∙ (fields r H lists 0 is h here (real h here)).2;
    }

    -- Unlinking writes into no other run that a client has.
    pub open_free-clients : (b : ℕ) → IsClients H h b → (unlink_free r h).memory b ≡ r.memory b
    open_free-clients b cl =
        un.inner cl.at b cl.there (inl cl.used) (omega (arith, cl.from)) cl.below
