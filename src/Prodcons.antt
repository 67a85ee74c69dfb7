-- ===== src/Prodcons.antt =====
-- A4/prodcons_21CS30009.c: a producer and its consumers, which share the two cells M[0] and M[1]. Each
-- access to a shared cell is a step; a loop that waits for M[0] is `none` until it can go on.
pub mod Balance
pub mod Checksum
mod Tests
use os_lab_sp.Prelude.{
  ℕ, ◌+◌, Bool, true, false, List, [], ◌∷◌, Option, none, some, ◌==◌, if◌then◌else◌, ◌>>=◌,
}
use os_lab_sp.Prelude.Family.{update}

-- The values of M[0]: 0, the number of a consumer, and -1.
pub data Mark : Type 0 where
  free closed : Mark
  addressed : ℕ → Mark

abbrev pub is_free : Mark → Bool
is_free free = true
is_free _ = false

abbrev pub is_addressed : Mark → ℕ → Bool
is_addressed (addressed j) i = j == i
is_addressed _ i = false

-- The producer: the items that are left, each with its consumer; or, between the two writes, the item
-- whose consumer stands in M[0] while the item does not stand in M[1] yet.
pub data Producer : Type 0 where
  ready : List (ℕ × ℕ) → Producer
  halfway : (item consumer : ℕ) → List (ℕ × ℕ) → Producer

-- Where a consumer is in its loop: before the test of M[0], before the read of M[1], before M[0] = 0.
pub data Stage : Type 0 where
  looking reading clearing : Stage

pub record Consumer : Type 0 where
  pub stage : Stage
  pub itemc : ℕ
  pub checksum : ℕ

pub record Market : Type 0 where
  pub m0 : Mark
  pub m1 : ℕ
  pub producer : Producer
  pub consumers : ℕ → Consumer
  pub cons_itemc : ℕ → ℕ
  pub cons_checksum : ℕ → ℕ

unfoldable pub market_init : ℕ → List (ℕ × ℕ) → Market
market_init garbage orders = record {
  m0 = free;
  m1 = garbage;
  producer = ready orders;
  consumers = λ i. record { stage = looking; itemc = 0; checksum = 0 };
  cons_itemc = λ i. 0;
  cons_checksum = λ i. 0;
}

unfoldable pub produce : Producer → Market → Option Market
produce (ready []) s = if is_free s.m0 then some (record s { m0 = closed }) else none
produce (ready ((item, c) ∷ orders)) s =
    if is_free s.m0
    then some (record s { m0 = addressed c; producer = halfway item c orders })
    else none
produce (halfway item c orders) s = some (record s {
  m1 = item;
  producer = ready orders;
  cons_itemc = update s.cons_itemc c (s.cons_itemc c + 1);
  cons_checksum = update s.cons_checksum c (s.cons_checksum c + item);
})

abbrev pub put : ℕ → Consumer → Market → Market
put i c s = record s { consumers = update s.consumers i c }

unfoldable pub consume : Stage → ℕ → Market → Option Market
consume looking i s =
    if is_addressed s.m0 i
    then some (put i (record (s.consumers i) { stage = reading }) s)
    else none
consume reading i s =
    let c = s.consumers i in
    some (put i (record { stage = clearing; itemc = c.itemc + 1; checksum = c.checksum + s.m1 }) s)
consume clearing i s =
    some (put i (record (s.consumers i) { stage = looking }) (record s { m0 = free }))

pub data Actor : Type 0 where
  the_producer : Actor
  consumer : ℕ → Actor

unfoldable pub act : Actor → Market → Option Market
unfolding produce consume
act the_producer s = produce s.producer s
act (consumer i) s = consume (s.consumers i).stage i s

unfoldable pub act_all : List Actor → Market → Option Market
act_all [] s = some s
act_all (a ∷ actors) s = act a s >>= act_all actors
