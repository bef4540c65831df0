-- ===== src/Core/Util.antt =====
-- storage/core/src/util.rs: the iterator over the entries of a map whose keys start with a prefix.
-- An iterator is its state; `next` returns the item and the state that is left. `collect` drives it to its
-- first `None`, on fuel; the entries that are left are enough fuel, since each call takes one.
pub mod Collect
use rpi4_usb_io_breaker.Base.{
  ℕ, zero, suc, Option, none, some, List, [], ◌∷◌, length, if◌then◌else◌,
}
use rpi4_usb_io_breaker.Base.Ord.{list_ord}
use rpi4_usb_io_breaker.BTreeMap.{BTreeMap, range_from}
use rpi4_usb_io_breaker.Core.Data.{Data, starts_with}

pub record PrefixIter {ℓ} (T : Type ℓ) : Type ℓ where
  pub inner : List (Data × T)
  pub pfx : Data

module _ {ℓ} {T : Type ℓ} where
  -- `PrefixIter::new`
  unfoldable pub new : BTreeMap Data T → Data → PrefixIter T
  new m p = record { inner = range_from p m; pfx = p }

  -- `self.inner.next().and_then(|(k, v)| k.starts_with(..).then(|| (k, v)))`
  next_entry : List (Data × T) → Data → Option (Data × T) × PrefixIter T
  next_entry [] p = (none, record { inner = []; pfx = p })
  next_entry ((k, v) ∷ rest) p =
      (if starts_with k p then some (k, v) else none, record { inner = rest; pfx = p })

  -- `PrefixIter::next`
  unfoldable pub next : PrefixIter T → Option (Data × T) × PrefixIter T
  unfolding next_entry
  next it = next_entry it.inner it.pfx

  -- the items up to the first `None`, in at most so many calls of `next`
  pub collect_fuel : ℕ → PrefixIter T → List (Data × T)
  collect_fuel zero it = []
  collect_fuel (suc fuel) it =
      let (item, it') = next it in
      let rest = collect_fuel fuel it' in elim item [ none ↦ [] | some e ↦ e ∷ rest ]

  pub collect : PrefixIter T → List (Data × T)
  unfolding collect_fuel next
  collect it = collect_fuel (length it.inner) it
