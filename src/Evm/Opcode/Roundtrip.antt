-- ===== src/Evm/Opcode/Roundtrip.antt =====
-- codegen/src/evm/opcodes.rs: a decoder over all opcodes, beside `encode`.
use merak.Prelude.{ℕ, ◌<◌, ◌≡◌, refl, List, [], ◌∷◌, Option, none, some, arith, ◌==◌, if◌then◌else◌}
use merak.Evm.Opcode.{
  Opcode, encode, stop, add, mul, sub, div, sdiv, modulo, smod, addmod, mulmod, exp, signextend, lt,
  gt, slt, sgt, eq, iszero, and, or, xor, not, byte, shl, shr, sar, sha3, address, balance, origin,
  caller, callvalue, calldataload, calldatasize, calldatacopy, codesize, codecopy, gasprice,
  extcodesize, extcodecopy, returndatasize, returndatacopy, extcodehash, blockhash, coinbase,
  timestamp, number, difficulty, gaslimit, chainid, selfbalance, basefee, pop, mload, mstore,
  mstore8, sload, sstore, jump, jumpi, pc, msize, gas, jumpdest, push1, push2, push3, push4, push5,
  push6, push7, push8, push9, push10, push11, push12, push13, push14, push15, push16, push17,
  push18, push19, push20, push21, push22, push23, push24, push25, push26, push27, push28, push29,
  push30, push31, push32, dup1, dup2, dup3, dup4, dup5, dup6, dup7, dup8, dup9, dup10, dup11, dup12,
  dup13, dup14, dup15, dup16, swap1, swap2, swap3, swap4, swap5, swap6, swap7, swap8, swap9, swap10,
  swap11, swap12, swap13, swap14, swap15, swap16, log0, log1, log2, log3, log4, create, call,
  callcode, return, delegatecall, create2, staticcall, revert, invalid, selfdestruct,
}

abbrev all_opcodes : List Opcode
all_opcodes =
    stop ∷ add ∷ mul ∷ sub ∷ div ∷ sdiv ∷ modulo ∷ smod ∷ addmod ∷ mulmod ∷ exp ∷ signextend ∷ lt
    ∷ gt ∷ slt ∷ sgt ∷ eq ∷ iszero ∷ and ∷ or ∷ xor ∷ not ∷ byte ∷ shl ∷ shr ∷ sar ∷ sha3 ∷ address
    ∷ balance ∷ origin ∷ caller ∷ callvalue ∷ calldataload ∷ calldatasize ∷ calldatacopy ∷ codesize
    ∷ codecopy ∷ gasprice ∷ extcodesize ∷ extcodecopy ∷ returndatasize ∷ returndatacopy
    ∷ extcodehash ∷ blockhash ∷ coinbase ∷ timestamp ∷ number ∷ difficulty ∷ gaslimit ∷ chainid
    ∷ selfbalance ∷ basefee ∷ pop ∷ mload ∷ mstore ∷ mstore8 ∷ sload ∷ sstore ∷ jump ∷ jumpi ∷ pc
    ∷ msize ∷ gas ∷ jumpdest ∷ push1 ∷ push2 ∷ push3 ∷ push4 ∷ push5 ∷ push6 ∷ push7 ∷ push8 ∷ push9
    ∷ push10 ∷ push11 ∷ push12 ∷ push13 ∷ push14 ∷ push15 ∷ push16 ∷ push17 ∷ push18 ∷ push19
    ∷ push20 ∷ push21 ∷ push22 ∷ push23 ∷ push24 ∷ push25 ∷ push26 ∷ push27 ∷ push28 ∷ push29
    ∷ push30 ∷ push31 ∷ push32 ∷ dup1 ∷ dup2 ∷ dup3 ∷ dup4 ∷ dup5 ∷ dup6 ∷ dup7 ∷ dup8 ∷ dup9
    ∷ dup10 ∷ dup11 ∷ dup12 ∷ dup13 ∷ dup14 ∷ dup15 ∷ dup16 ∷ swap1 ∷ swap2 ∷ swap3 ∷ swap4 ∷ swap5
    ∷ swap6 ∷ swap7 ∷ swap8 ∷ swap9 ∷ swap10 ∷ swap11 ∷ swap12 ∷ swap13 ∷ swap14 ∷ swap15 ∷ swap16
    ∷ log0 ∷ log1 ∷ log2 ∷ log3 ∷ log4 ∷ create ∷ call ∷ callcode ∷ return ∷ delegatecall ∷ create2
    ∷ staticcall ∷ revert ∷ invalid ∷ selfdestruct ∷ []

find_byte : ℕ → List Opcode → Option Opcode
find_byte b [] = none
find_byte b (op ∷ ops) = if encode op == b then some op else find_byte b ops

-- The opcode with a given byte.
pub decode : ℕ → Option Opcode
unfolding find_byte
decode b = find_byte b all_opcodes

-- Decoding the byte of an opcode gives that opcode.
pub decode-encode : (op : Opcode) → decode (encode op) ≡ some op
unfolding decode encode
decode-encode stop = refl
decode-encode _ = refl

-- Two opcodes with the same byte are the same opcode.
pub encode-injective : (a b : Opcode) → encode a ≡ encode b → a ≡ b
encode-injective a b h = cc (decode-encode a, decode-encode b)

-- Every opcode is one byte.
pub encode-lt-256 : (op : Opcode) → encode op < 256
unfolding encode
encode-lt-256 stop = omega arith
encode-lt-256 _ = omega arith
