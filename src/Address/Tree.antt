-- ===== src/Address/Tree.antt =====
-- The part of the program database (of the eg compiler) that src/core/networkAddressTable.cpp
-- reads: the concrete elements below an action. An action has the index of its type, the
-- identifier of its context, whether that context is a root for a host name, and its children.
use megastructure.Common.{ℕ, String, Bool, Result, ok, throws}

-- The elements below an action, in order: an action with its children or another element, and the
-- elements that follow it.
pub data Elements : Type 0 where
  end : Elements
  action : ℕ → String → Bool → Elements → Elements → Elements
  element : ℕ → Elements → Elements

-- getMegaRoot: the children of the only action below the root of the instances.
no_action : Elements → Elements → Result Elements
no_action found end = ok found
no_action found (action index identifier is_host children rest) = throws
no_action found (element index rest) = no_action found rest

unfoldable pub get_mega_root : Elements → Result Elements
unfolding no_action
get_mega_root end = throws
get_mega_root (action index identifier is_host children rest) = no_action children rest
get_mega_root (element index rest) = get_mega_root rest
