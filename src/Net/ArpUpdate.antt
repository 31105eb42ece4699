-- ===== src/Net/ArpUpdate.antt =====
-- `arp_lookup` and `arp_table_add` (sw/rv32/arp.c) on the table as a map.
use zipversa.Base.{
  if◌then◌else◌, Bool-cases, ℕ, ◌≤◌, ◌<◌, ◌≡◌, ◌≢◌, inl, inr, refl, arith, Bool, true, false,
  Option, none, some,
}
use zipversa.Base.{◌==◌, not, ◌&&◌, ◌||◌, ap, sym, ◌∙◌, List, length, get_or, set}
use zipversa.Net.State.{Packet, ArpEntry, Net}
use zipversa.Net.Packet.{new_pkt, free_pkt, tx_busy, tx_pkt}
use zipversa.Net.Ether.{new_ethpkt, tx_ethpkt}
use zipversa.Net.Arp.{
  next_index, get_next_arp_index, scan, is_remote, arp_lookup, no_entry, mark_valid, add_entry,
  log_entry, enter, arp_table_add, send_arp_request,
}
use zipversa.Net.ArpLaws.{
  find, scan-find, find-scan, length-scan, find-replace_mac, find-set, find-set_other,
  next_index_lt, set-set, get_or-set, get_or-set_other,
}

table-tx_busy :
    (w : Option Packet) (p : Packet) (s : Net)
    → s.waiting_pkt ≡ w
    → (tx_busy p s).arp_table ≡ s.arp_table
unfolding tx_busy free_pkt
table-tx_busy none p s e = rw e refl
table-tx_busy (some old) p s e = rw e (ground arith)

table-tx_pkt : (p : Packet) (s : Net) → (tx_pkt p s).arp_table ≡ s.arp_table
unfolding tx_pkt free_pkt
table-tx_pkt p s = ground (arith, table-tx_busy s.waiting_pkt p s refl)

table-send_arp_request :
    (ipaddr : ℕ) (s : Net) → (send_arp_request ipaddr s).arp_table ≡ s.arp_table
unfolding send_arp_request new_ethpkt new_pkt tx_ethpkt
table-send_arp_request ipaddr s = table-tx_pkt _ _

-- The address is one that is looked up in the table: on the local network and not the router's, or
-- no router's address is known.
abbrev pub is_listed : ℕ → Net → Bool
is_listed ipaddr s =
    not ((is_remote ipaddr s || ipaddr == s.my_ip_router) && not (s.router_mac_addr == 0))

lookup_some :
    (ipaddr mac : ℕ) (s : Net)
    → is_listed ipaddr s ≡ true
    → find ipaddr s.arp_table ≡ some mac
    → arp_lookup ipaddr s ≡ (some mac, record s { arp_table = (scan ipaddr 0 s.arp_table).1 })
unfolding arp_lookup
lookup_some ipaddr mac s l e =
    let f : ((is_remote ipaddr s || ipaddr == s.my_ip_router) && not (s.router_mac_addr == 0))
        ≡ false =
      ground arith in
    rw (f, scan-find ipaddr 0 s.arp_table, e) refl

lookup_none :
    (ipaddr : ℕ) (s : Net)
    → is_listed ipaddr s ≡ true
    → find ipaddr s.arp_table ≡ none
    → arp_lookup ipaddr s
      ≡ (none, send_arp_request ipaddr (record s { arp_table = (scan ipaddr 0 s.arp_table).1 }))
unfolding arp_lookup
lookup_none ipaddr s l e =
    let f : ((is_remote ipaddr s || ipaddr == s.my_ip_router) && not (s.router_mac_addr == 0))
        ≡ false =
      ground arith in
    rw (f, scan-find ipaddr 0 s.arp_table, e) refl

-- For an address that is looked up in the table, `arp_lookup` answers with the first valid entry for
-- it, and the table goes on to have that answer.
pub arp_lookup-find :
    (ipaddr : ℕ) (s : Net)
    → is_listed ipaddr s ≡ true
    → ((arp_lookup ipaddr s).0 ≡ find ipaddr s.arp_table)
      × (find ipaddr (arp_lookup ipaddr s).1.arp_table ≡ find ipaddr s.arp_table)
arp_lookup-find ipaddr s l = go (find ipaddr s.arp_table) refl
  where
    go :
        (m : Option ℕ)
        → find ipaddr s.arp_table ≡ m
        → ((arp_lookup ipaddr s).0 ≡ find ipaddr s.arp_table)
          × (find ipaddr (arp_lookup ipaddr s).1.arp_table ≡ find ipaddr s.arp_table)
    go none e =
        rw (lookup_none ipaddr s l e) (
          sym e,
          ap (find ipaddr) (table-send_arp_request ipaddr _) ∙ find-scan ipaddr 0 s.arp_table,
        )
    go (some mac) e = rw (lookup_some ipaddr mac s l e) (sym e, find-scan ipaddr 0 s.arp_table)

mark_valid-set :
    (i : ℕ) (e : ArpEntry) (t : List ArpEntry)
    → i < length t
    → mark_valid i (set t i e) ≡ set t i (record e { valid = true })
mark_valid-set i e t lt =
    rw (get_or-set i no_entry e t lt, set-set i e (record e { valid = true }) t) refl

mark_valid-set_other :
    (i j : ℕ) (e : ArpEntry) (t : List ArpEntry)
    → i ≢ j
    → mark_valid j (set t i e) ≡ set (set t i e) j (record (get_or t j no_entry) { valid = true })
mark_valid-set_other i j e t ne = rw (get_or-set_other i j no_entry e t ne) refl

add_entry_same :
    (ipaddr mac : ℕ) (s : Net)
    → 1 ≤ length s.arp_table
    → find ipaddr s.arp_table ≡ none
    → find ipaddr (add_entry (get_next_arp_index s) ipaddr mac s).arp_table ≡ some mac
unfolding add_entry get_next_arp_index
add_entry_same ipaddr mac s n e =
    let i = next_index 0 0 0 s.arp_table in
    let lt : i < length s.arp_table =
      omega (arith, next_index_lt 0 0 0 s.arp_table (omega arith)) in
    let old = get_or s.arp_table i no_entry in
    let new : ArpEntry = record {
      valid = old.valid && not (i == i);
      age = 0;
      ipaddr = ipaddr;
      mac = mac;
    } in
    rw (mark_valid-set i new s.arp_table lt)
      (find-set ipaddr i (record new { valid = true }) s.arp_table e lt refl refl)

add_entry_other :
    (stray ipaddr mac : ℕ) (s : Net)
    → find ipaddr s.arp_table ≡ none
    → stray ≢ get_next_arp_index s
    → (get_or s.arp_table (get_next_arp_index s) no_entry).valid ≡ false
    → (get_or s.arp_table stray no_entry).ipaddr ≢ ipaddr
    → find ipaddr (add_entry stray ipaddr mac s).arp_table ≡ none
unfolding add_entry
add_entry_other stray ipaddr mac s e ne free other =
    let i = get_next_arp_index s in
    let old = get_or s.arp_table i no_entry in
    let new : ArpEntry = record {
      valid = old.valid && not (stray == i);
      age = 0;
      ipaddr = ipaddr;
      mac = mac;
    } in
    let off : (old.valid && not (stray == i)) ≡ false = rw free refl in
    rw (mark_valid-set_other i stray new s.arp_table (λ q. ne (sym q))) (
      find-set_other ipaddr stray _ (set s.arp_table i new)
        (find-set_other ipaddr i new s.arp_table e (inl off)) (inr other))

-- What `arp_table_add` finds the table to be, after it has looked the address up.
abbrev pub searched : ℕ → Net → List ArpEntry
searched ipaddr s = (scan ipaddr 0 s.arp_table).1

module _ (stray ipaddr mac : ℕ) (s : Net) (listed : is_listed ipaddr s ≡ true)
    (mine : ipaddr ≢ s.my_ip_addr) (router : ipaddr ≢ s.my_ip_router) where
  not_mine : (ipaddr == s.my_ip_addr) ≡ false
  not_mine = ground (arith, mine)

  not_router : (ipaddr == s.my_ip_router) ≡ false
  not_router = ground (arith, router)

  -- The state that the new entry is put into.
  abbrev requested : Net
  requested =
      send_arp_request ipaddr (record (log_entry ipaddr mac s) { arp_table = searched ipaddr s })

  requested_table : requested.arp_table ≡ searched ipaddr s
  requested_table = table-send_arp_request ipaddr _

  add_unknown :
      find ipaddr s.arp_table ≡ none
      → arp_table_add stray ipaddr mac s ≡ add_entry stray ipaddr mac requested
  unfolding arp_table_add log_entry enter
  add_unknown e =
      rw (not_mine, not_router, lookup_none ipaddr (log_entry ipaddr mac s) listed e) refl

  kept : (old : ℕ) → find ipaddr s.arp_table ≡ some old → find ipaddr (searched ipaddr s) ≡ some old
  kept old e = find-scan ipaddr 0 s.arp_table ∙ e

  -- For an address of the local network, neither the board's nor the router's, that is in the table:
  -- after `arp_table_add` the hardware address that was given is the one that is found.
  pub arp_table_add_known :
      (old : ℕ)
      → find ipaddr s.arp_table ≡ some old
      → find ipaddr (arp_table_add stray ipaddr mac s).arp_table ≡ some mac
  unfolding arp_table_add log_entry enter
  arp_table_add_known old e =
      rw (not_mine, not_router, lookup_some ipaddr old (log_entry ipaddr mac s) listed e)
        (ground (arith, kept old e, find-replace_mac ipaddr mac old (searched ipaddr s)))

  -- The pointer happens to be to the new entry.
  added_found :
      find ipaddr s.arp_table ≡ none
      → 1 ≤ length s.arp_table
      → stray ≡ next_index 0 0 0 (searched ipaddr s)
      → find ipaddr (arp_table_add stray ipaddr mac s).arp_table ≡ some mac
  unfolding get_next_arp_index
  added_found e n same =
      let here : stray ≡ get_next_arp_index requested =
        same ∙ ap (next_index 0 0 0) (sym requested_table) in
      let none_there : find ipaddr requested.arp_table ≡ none =
        ap (find ipaddr) requested_table ∙ find-scan ipaddr 0 s.arp_table ∙ e in
      let some_there : 1 ≤ length requested.arp_table =
        omega (arith, ap length requested_table, length-scan ipaddr 0 s.arp_table) in
      ap (λ (r : Net). find ipaddr r.arp_table) (add_unknown e)
      ∙ ap (λ k. find ipaddr (add_entry k ipaddr mac requested).arp_table) here
      ∙ add_entry_same ipaddr mac requested some_there none_there

  -- The pointer is to another entry, or to none.
  added_lost :
      find ipaddr s.arp_table ≡ none
      → stray ≢ next_index 0 0 0 (searched ipaddr s)
      → (get_or (searched ipaddr s) (next_index 0 0 0 (searched ipaddr s)) no_entry).valid ≡ false
      → (get_or (searched ipaddr s) stray no_entry).ipaddr ≢ ipaddr
      → find ipaddr (arp_table_add stray ipaddr mac s).arp_table ≡ none
  unfolding get_next_arp_index
  added_lost e ne free other =
      let there = requested_table in
      let none_there : find ipaddr requested.arp_table ≡ none =
        ap (find ipaddr) there ∙ find-scan ipaddr 0 s.arp_table ∙ e in
      ap (λ (r : Net). find ipaddr r.arp_table) (add_unknown e)
      ∙ add_entry_other stray ipaddr mac requested none_there
          (λ q. ne (q ∙ ap (next_index 0 0 0) there))
          (ap (λ t. (get_or t (next_index 0 0 0 t) no_entry).valid) there ∙ free)
          (λ q. other (ap (λ t. (get_or t stray no_entry).ipaddr) (sym there) ∙ q))

  -- For an address of the local network, neither the board's nor the router's, that is not in the
  -- table: when the table has an entry, the one that `get_next_arp_index` computes is free, and the
  -- entry at the index `stray` that `eid` happens to hold before it is computed, if there is one, is for
  -- another address, then after `arp_table_add` the hardware address that was given is found if `stray`
  -- is the index that is computed, and otherwise none is.
  pub arp_table_add_new :
      find ipaddr s.arp_table ≡ none
      → 1 ≤ length s.arp_table
      → (get_or (searched ipaddr s) (next_index 0 0 0 (searched ipaddr s)) no_entry).valid ≡ false
      → (get_or (searched ipaddr s) stray no_entry).ipaddr ≢ ipaddr
      → find ipaddr (arp_table_add stray ipaddr mac s).arp_table
        ≡ (if stray == next_index 0 0 0 (searched ipaddr s) then some mac else none)
  arp_table_add_new e n free other =
      elim (Bool-cases (stray == next_index 0 0 0 (searched ipaddr s))) [
        | inl same ↦ rw same (added_found e n (ground arith))
        | inr apart ↦ rw apart (added_lost e (λ q. absurd (ground arith)) free other)
      ]
