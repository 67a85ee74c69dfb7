-- ===== src/Prodcons/Checksum.antt =====
-- A4/prodcons_21CS30009.c: an order of the steps with a wrong checksum.
use os_lab_sp.Prelude.{ℕ, ◌+◌, ◌≡◌, refl, List, [], ◌∷◌, Option, some, arith, ap, ◌∙◌}
use os_lab_sp.Prelude.Family.{update}
use os_lab_sp.Prodcons.{
  free, closed, addressed, ready, halfway, Stage, looking, reading, clearing, Consumer, Market,
  market_init, produce, put, consume, Actor, the_producer, consumer, act, act_all,
}

-- The order in which a consumer reads M[1] between the two writes of the producer.
abbrev pub too_early : ℕ → List Actor
too_early c = the_producer ∷ consumer c ∷ consumer c ∷ consumer c ∷ the_producer ∷ the_producer ∷ []

act_all-cons :
    (a : Actor) (actors : List Actor) (s t : Market) (u : Option Market)
    → act a s ≡ some t
    → act_all actors t ≡ u
    → act_all (a ∷ actors) s ≡ u
unfolding act_all
act_all-cons a actors s t u e f = rw e f

consumer-at :
    (stage : Stage) (i : ℕ) (s : Market) (t : Option Market)
    → (s.consumers i).stage ≡ stage
    → consume stage i s ≡ t
    → act (consumer i) s ≡ t
unfolding act
consumer-at stage i s t e f = ap (λ q. consume q i s) e ∙ f

-- With one order, for any consumer and item, that order of the steps ends with M[0] at -1, and the
-- consumer has added what stood in M[1] before, and not the item, to its checksum.
pub checksum_wrong :
    (garbage item c : ℕ)
    → (s : Market) × (act_all (too_early c) (market_init garbage ((item, c) ∷ [])) ≡ some s)
      × (s.m0 ≡ closed)
      × ((s.consumers c).checksum ≡ garbage)
      × (s.cons_checksum c ≡ item)
unfolding act_all act produce consume market_init
checksum_wrong garbage item c =
    let s0 = market_init garbage ((item, c) ∷ []) in
    let s1 = record s0 { m0 = addressed c; producer = halfway item c [] } in
    let s2 = put c (record (s1.consumers c) { stage = reading }) s1 in
    let read : Consumer = record {
      stage = clearing;
      itemc = (s2.consumers c).itemc + 1;
      checksum = (s2.consumers c).checksum + s2.m1;
    } in
    let s3 = put c read s2 in
    let s4 = put c (record (s3.consumers c) { stage = looking }) (record s3 { m0 = free }) in
    let s5 = record s4 {
      m1 = item;
      producer = ready [];
      cons_itemc = update s4.cons_itemc c (s4.cons_itemc c + 1);
      cons_checksum = update s4.cons_checksum c (s4.cons_checksum c + item);
    } in
    let s6 = record s5 { m0 = closed } in
    let u = some s6 in
    let late =
      act_all-cons the_producer (the_producer ∷ []) s4 s5 u refl
        (act_all-cons the_producer [] s5 s6 u refl refl) in
    let reads =
      act_all-cons (consumer c) (consumer c ∷ the_producer ∷ the_producer ∷ []) s2 s3 u
        (consumer-at reading c s2 (some s3) (ground arith) refl)
        (act_all-cons (consumer c) (the_producer ∷ the_producer ∷ []) s3 s4 u
          (consumer-at clearing c s3 (some s4) (ground arith) refl) late) in
    let run =
      act_all-cons the_producer
        (consumer c ∷ consumer c ∷ consumer c ∷ the_producer ∷ the_producer ∷ []) s0 s1 u refl
        (act_all-cons (consumer c) (consumer c ∷ consumer c ∷ the_producer ∷ the_producer ∷ []) s1
          s2 u (consumer-at looking c s1 (some s2) refl (ground arith)) reads) in
    (s6, run, refl, ground arith, ground arith)
