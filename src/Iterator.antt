-- ===== src/Iterator.antt =====
-- Parser/src/asn1_parser.c and include/asn1/asn1.h: the children of a node.
pub mod Roots
pub mod Children
pub mod Subtrees
use asn.Base.{
  ℕ, zero, suc, ◌+◌, ◌-◌, Bool, Option, none, some, List, get_elem?, ltb, leb, ◌==◌, if◌then◌else◌,
  add_size, Outcome, done, failed, fault, out_of_fuel, access, bind,
}
use asn.Error.{Error, Op}
use asn.Parser.Node.{Node, ParseResult}

-- asn1_root_node()
unfoldable pub root_node : ParseResult → Option Node
root_node r = if ltb 0 r.count then get_elem? r.nodes 0 else none

-- asn1_node_iterator_t
pub record NodeIterator : Type 0 where
  pub result : ParseResult
  pub parent_depth : ℕ
  pub current_index : ℕ
  pub end_index : ℕ

-- asn1_children(): it leaves no state.
unfoldable pub children : ParseResult → ℕ → Outcome Error (Unit {0}) NodeIterator
children r node_index =
    if leb r.count node_index
    then done (record { result = r; parent_depth = 0; current_index = 0; end_index = 0 }) tt
    else bind (access (get_elem? r.nodes node_index) tt) (λ parent _.
      done
        (record {
          result = r;
          parent_depth = parent.depth;
          current_index = add_size node_index 1;
          end_index = add_size node_index parent.subtree_size;
        })
        tt)

-- The loop of asn1_next_child(); a round that goes on moves the index up by one, so as many rounds as
-- indices are left are enough.
unfoldable pub next_child_loop : ℕ → Op NodeIterator (Option Node)
next_child_loop zero it = if ltb it.current_index it.end_index then out_of_fuel else done none it
next_child_loop (suc fuel) it =
    let more = next_child_loop fuel (record it { current_index = it.current_index + 1 }) in
    if ltb it.current_index it.end_index
    then bind (access (get_elem? it.result.nodes it.current_index) it) (λ node it.
      if node.depth == it.parent_depth + 1
      then done (some node)
          (record it { current_index = add_size it.current_index node.subtree_size })
      else more)
    else done none it

-- asn1_next_child()
unfoldable pub next_child : Op NodeIterator (Option Node)
unfolding next_child_loop
next_child it = next_child_loop (it.end_index - it.current_index) it
