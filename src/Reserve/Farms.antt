-- ===== src/Reserve/Farms.antt =====
-- The farms that a reserve names (klend/programs/klend/src/state/reserve.rs): one for its deposits and
-- one for its debts.
use solana_auditor_skill.Reserve.Types.{Reserve, Pubkey}

pub data ReserveFarmKind : Type 0 where
  collateral debt : ReserveFarmKind

unfoldable pub get_farm : Reserve → ReserveFarmKind → Pubkey
get_farm r collateral = r.farm_collateral
get_farm r debt = r.farm_debt

unfoldable pub add_farm : Reserve → Pubkey → ReserveFarmKind → Reserve
add_farm r farm_state collateral = record r { farm_collateral = farm_state }
add_farm r farm_state debt = record r { farm_debt = farm_state }
