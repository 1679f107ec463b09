-- ===== src/Node/Text/Tests.antt =====
-- The texts of the chains of the sample node.
use simple_ft.Base.{
  digits, digits_loop, ◌+◌, ◌≡◌, refl, codes, List, ◌++◌, some, length, arith, put, nat_key,
}
use simple_ft.Data.{BlockWithQc}
use simple_ft.Node.{genesis}
use simple_ft.Node.Sample.{program, toy, alone, votes, commits, committed}
use simple_ft.Node.Text.{block_string, chain_string, candidate_chain_string}
use simple_ft.Node.Text.Laws.{texts, StandFrom, chain_string-run, candidate_chain_string-top}

genesis_text :
    block_string toy genesis
    ≡ codes "{height: 0, proposer: CivCrafter, previosHash: , currentHash: "
      ++ codes "0000436976437261667465"
      ++ codes "72}; "
unfolding program block_string digits digits_loop
genesis_text = refl

chain_string-run_example :
    (bs : List BlockWithQc) × (length bs ≡ committed.node.chain.height + 1)
    × StandFrom toy 0 committed.node.chain.blocks bs
    × (chain_string toy committed.node.chain ≡ some (texts toy bs))
unfolding program
chain_string-run_example =
    chain_string-run toy alone (votes ++ commits) committed refl (omega arith)

candidate_chain_string-top_example :
    candidate_chain_string toy
      (λ m. m)
      (record committed.node {
        candidate_chain = record committed.node.candidate_chain {
          blocks =
              put committed.node.candidate_chain.height 7 committed.node.candidate_chain.blocks;
        };
      })
    ≡ candidate_chain_string toy (λ m. m) committed.node
candidate_chain_string-top_example = candidate_chain_string-top toy (λ m. m) committed.node 7
