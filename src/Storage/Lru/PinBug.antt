-- ===== src/Storage/Lru/PinBug.antt =====
-- `LruReplacer::Pin` of src/storage/buffer/lru_replacer.cpp unlinks the node and leaves it in
-- `nodes_`, unlike `Evict`.
use seeddb.Base.{
  Held, true, false, not, sym, subst, ◌≢◌, ◌==◌, ℕ, ◌≡◌, some, none, Bool-cases, arith,
  if◌then◌else◌, ◌∙◌, ap, inl, Option, inr, Bool, refl, ≡→==_true,
}
use seeddb.Storage.Lru.{LruReplacer, contains, remove, pin, unpin, access, evict, dec_size}
use seeddb.Storage.Lru.Stuck.{IsStuck, unlink-stuck, evict-IsStuck, After, After-IsStuck}
use seeddb.Storage.Lru.Laws.{IsValid, order, contains-remove, contains-append}
use seeddb.Storage.Lru.Order.{unlinked, unlink-unlinked, unlinked-order, node_of_contains}

pinned : ℕ → LruReplacer → LruReplacer
pinned f s =
    if contains s.young f
    then record (unlinked f s) { young_size = dec_size (unlinked f s).young_size }
    else record (unlinked f s) { old_size = dec_size (unlinked f s).old_size }

pin-pinned :
    (s : LruReplacer) (f : ℕ)
    → IsValid s
    → contains (order s) f ≡ true
    → pin f s ≡ some (pinned f s)
unfolding pin pinned
pin-pinned s f v h = elim (Bool-cases (contains s.young f)) [
  | inl young ↦ rw (node_of_contains s f v h, unlink-unlinked s f h, young, pin) refl
  | inr old ↦ rw (node_of_contains s f v h, unlink-unlinked s f h, old, pin) refl
]

pinned-order : (s : LruReplacer) (f : ℕ) → order (pinned f s) ≡ order (unlinked f s)
unfolding pinned
pinned-order s f = ground arith

pinned_node : (s : LruReplacer) (f : ℕ) → (pinned f s).nodes ≡ s.nodes
unfolding pinned unlinked
pinned_node s f = elim (Bool-cases (contains s.young f)) [
  | inl young ↦ rw young refl
  | inr old ↦ rw old refl
]

pinned-IsStuck :
    (s : LruReplacer) (f : ℕ) → IsValid s → contains (order s) f ≡ true → IsStuck f (pinned f s)
pinned-IsStuck s f v h =
    let same = pinned-order s f ∙ unlinked-order s f in
    let gone : contains (order (pinned f s)) f ≡ false =
      rw same (rw (contains-remove (order s) f f v.distinct) (rw (≡→==_true f f refl) refl)) in
    let out = sym (contains-append (pinned f s).young (pinned f s).old f) ∙ gone in
    record {
      in_old = not (contains s.young f);
      node = ap (λ (n : ℕ → Option Bool). n f) (pinned_node s f) ∙ node_of_contains s f v h;
      out_young = ground (arith, out);
      out_old = ground (arith, out);
    }

-- What holds of a frame in a state behind its `Pin`.
abbrev StuckOutcome : LruReplacer → ℕ → Type 0
StuckOutcome u f =
    (contains (order u) f ≡ false)
    × (unpin f u ≡ u)
    × (pin f u ≡ none)
    × (access f u ≡ none)
    × ((g : ℕ) (w : LruReplacer) → evict u ≡ some (g, w) → g ≢ f)

IsStuck-outcome : (u : LruReplacer) (f : ℕ) → IsStuck f u → StuckOutcome u f
unfolding pin unpin access
IsStuck-outcome u f v = (
  contains-append u.young u.old f ∙ rw (v.out_young, v.out_old) refl,
  rw (v.node, unpin) refl,
  rw (v.node, unlink-stuck f u v, pin) refl,
  rw (v.node, unlink-stuck f u v, access) refl,
  (λ g w e same.
      apart
        (subst (Held (λ (x : ℕ × LruReplacer). ((x.0 == f) ≡ false) × IsStuck f x.1)) e
          (evict-IsStuck f u v)).0
        same),
)
  where
    apart : {g : ℕ} → (g == f) ≡ false → ¬ (g ≡ f)
    apart h same = ground arith

abbrev pub PinOutcome : LruReplacer → ℕ → Type 0
PinOutcome s f =
    (t : LruReplacer) × (pin f s ≡ some t)
    × (order t ≡ remove (order s) f)
    × ((u : LruReplacer) → After t u → StuckOutcome u f)

-- `Pin` of a frame of a consistent list succeeds and takes the frame out of the order. In each state
-- that any further calls of `Pin`, `Unpin`, `Access` and `Evict` lead to, on this and on other frames,
-- the frame is not in the order: `Unpin` of it changes nothing, `Evict` does not give it, and a second
-- `Pin` or an `Access` of it steps through a null link.
pub pin_sticks :
    (s : LruReplacer) (f : ℕ) → IsValid s → contains (order s) f ≡ true → PinOutcome s f
pin_sticks s f v h = (
  pinned f s,
  pin-pinned s f v h,
  pinned-order s f ∙ unlinked-order s f,
  (λ u run. IsStuck-outcome u f (After-IsStuck f (pinned-IsStuck s f v h) run)),
)
