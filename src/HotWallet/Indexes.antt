-- ===== src/HotWallet/Indexes.antt =====
-- internal/wallet/address/service.go, `GetNextAddressIndex` on a database whose commit fails.
use go_wallet.Prelude.{◌+◌, ◌==◌, ◌≡◌, ℕ, Option, some, false, first, arith, ap, ◌∙◌}
use go_wallet.Store.{AddressIndex}
use go_wallet.World.{Env, World, ok, query_one, try_action, pure, commit, raise, ◌>>=◌}
use go_wallet.World.Transaction.{with_transaction, end_transaction, write}
use go_wallet.HotWallet.{get_next_address_index, next_index, same_device}

-- The row of the device.
abbrev pub index_row : Option ℕ → World → Option AddressIndex
index_row device w =
    first (λ (a : AddressIndex). same_device a.device_name device) w.db.address_indexes

abbrev pub index_row_by_id : ℕ → World → Option AddressIndex
index_row_by_id id w = first (λ (a : AddressIndex). a.id == id) w.db.address_indexes

-- Once the row is found.
next_of_row :
    (device : Option ℕ) (env : Env) (w : World) (found row : AddressIndex)
    → index_row device w ≡ some found
    → index_row_by_id found.id w ≡ some row
    → env.db_fails w.tick ≡ false
    → env.db_fails (w.tick + 1) ≡ false
    → env.db_fails (w.tick + 1 + 1) ≡ false
    → env.db_fails (w.tick + 1 + 1 + 1) ≡ false
    → (get_next_address_index device env w).0 ≡ ok (row.current_index + 1)
unfolding get_next_address_index next_index with_transaction end_transaction write try_action
    query_one commit pure raise ◌>>=◌
next_of_row device env w found row h k a b c d = ground (arith, h, k)

-- What a commit that fails leaves.
row_kept :
    (device : Option ℕ) (env : Env) (w : World) (found row : AddressIndex)
    → index_row device w ≡ some found
    → index_row_by_id found.id w ≡ some row
    → ((t : ℕ) → env.db_fails t ≡ (t == w.tick + 1 + 1 + 1 + 1))
    → (get_next_address_index device env w).1.db ≡ w.db
unfolding get_next_address_index next_index with_transaction end_transaction write try_action
    query_one commit pure raise ◌>>=◌
row_kept device env w found row h k fails = ground (
  arith,
  h,
  k,
  fails w.tick,
  fails (w.tick + 1),
  fails (w.tick + 1 + 1),
  fails (w.tick + 1 + 1 + 1),
  fails (w.tick + 1 + 1 + 1 + 1),
)

-- Where the commit of an address index fails and all calls before it succeed, the caller is given
-- the next index all the same, nothing is stored, and the next caller, whose calls succeed, is
-- given the same index.
pub index_given_twice :
    (device : Option ℕ) (env next : Env) (w : World) (found row : AddressIndex)
    → index_row device w ≡ some found
    → index_row_by_id found.id w ≡ some row
    → ((t : ℕ) → env.db_fails t ≡ (t == w.tick + 1 + 1 + 1 + 1))
    → ((t : ℕ) → next.db_fails t ≡ false)
    → let w' = (get_next_address_index device env w).1 in
      ((get_next_address_index device env w).0 ≡ ok (row.current_index + 1))
      × (w'.db ≡ w.db)
      × ((get_next_address_index device next w').0 ≡ ok (row.current_index + 1))
index_given_twice device env next w found row h k fails up =
    let kept = row_kept device env w found row h k fails in
    let w' = (get_next_address_index device env w).1 in
    (
      next_of_row device env w found row h k (ground (arith, fails w.tick))
          (ground (arith, fails (w.tick + 1))) (ground (arith, fails (w.tick + 1 + 1)))
          (ground (arith, fails (w.tick + 1 + 1 + 1))),
      kept,
      next_of_row device next w' found row
          (ap
              (λ db.
                first (λ (a : AddressIndex). same_device a.device_name device) db.address_indexes)
              kept
            ∙ h)
          (ap (λ db. first (λ (a : AddressIndex). a.id == found.id) db.address_indexes) kept ∙ k)
          (up _) (up _) (up _) (up _),
    )
