-- ===== src/Chain/ForkChoice.antt =====
-- chainNodeMax of RBlockSim/src/Block.c: which of two chains a node prefers.
-- The functions answer `true` for their first argument.
pub mod Order
use rblock_sim_reproducibili.Base.{ℕ, ◌+◌, Bool, true, false, ltb, leb, ◌==◌, if◌then◌else◌}
use rblock_sim_reproducibili.Run.{Run, ok, abort, ◌>>=◌}
use rblock_sim_reproducibili.Platform.{Platform}
use rblock_sim_reproducibili.Config.{
  Globals, AttackConfig, attack_none, attack_selfish_mining, attack_fifty_one, is_attacker,
}
use rblock_sim_reproducibili.Chain.{ChainNode}

-- `chainNodeMaxHonest`
unfoldable pub max_honest : ChainNode → ChainNode → Bool
max_honest a b =
    if ltb b.score a.score
    then true
    else if ltb a.score b.score
    then false
    else if ltb b.ancestors_mined a.ancestors_mined
    then true
    else if ltb a.ancestors_mined b.ancestors_mined
    then false
    else if ltb a.timestamp b.timestamp
    then true
    else if ltb b.timestamp a.timestamp
    then false
    else leb a.miner b.miner

-- The tolerance that the attack configures; without an attack the program exits.
unfoldable pub catchup_tolerance : AttackConfig → Run ℕ
catchup_tolerance attack_none = abort
catchup_tolerance (attack_selfish_mining s) = ok s.catchup_tolerance
catchup_tolerance (attack_fifty_one s) = ok s.catchup_tolerance

-- The rest of `chainNodeMaxAttacker`, where the first argument has more ancestors mined.
unfoldable pub max_tolerant : AttackConfig → ChainNode → ChainNode → Run Bool
unfolding catchup_tolerance
max_tolerant attack a b = if leb b.score a.score then ok true else do
  tolerance ← catchup_tolerance attack
  let virtual_score = a.score + tolerance
  ok (
      if ltb b.score virtual_score
      then true
      else if ltb virtual_score b.score
      then false
      else if ltb a.timestamp b.timestamp
      then true
      else if ltb b.timestamp a.timestamp
      then false
      else leb a.miner b.miner)

-- `chainNodeMaxAttacker`, which swaps its arguments when the second has more ancestors mined.
unfoldable pub max_attacker : AttackConfig → ChainNode → ChainNode → Run Bool
unfolding max_honest max_tolerant
max_attacker attack a b =
    if a.ancestors_mined == b.ancestors_mined
    then ok (max_honest a b)
    else if ltb a.ancestors_mined b.ancestors_mined
    then max_tolerant attack b a >>= (λ first. ok (if first then false else true))
    else max_tolerant attack a b

-- `chainNodeMax`
unfoldable pub chain_node_max : Platform → Globals → ChainNode → ChainNode → Run Bool
unfolding max_attacker
chain_node_max p g a b =
    if is_attacker p g g.current_node then max_attacker g.attack_config a b else ok (max_honest a b)
