-- ===== src/Main.antt =====
-- jupiter-core/src/main.rs: the command line of jupiter-core. clap parses it, and the snapshot of
-- an AMM talks to a node: both are parameters.
use Prim.Native.String.{String}
use jupiter_amm_implementati.Base.{Bool, Option, Partial, unwrap_partial}

pub record ConfigOverride : Type 0 where
  pub rpc_url : String

pub record SnapshotAmm : Type 0 where
  pub amm_id : String
  pub option : Option String
  pub force : Bool

pub data Command : Type 0 where
  snapshot_amm : SnapshotAmm → Command

pub record Cli : Type 0 where
  pub config_override : ConfigOverride
  pub command : Command

-- `take_snapshot`, whose error the program unwraps.
unfoldable main :
    (String → String → Option String → Bool → Partial (Unit {0})) → Cli → Partial (Unit {0})
main take_snapshot cli = elim cli.command [
  | snapshot_amm c ↦
      unwrap_partial (take_snapshot cli.config_override.rpc_url c.amm_id c.option c.force)
]
