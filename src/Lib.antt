-- ===== src/Lib.antt =====
-- cpmdc: the C library that embeds the electronic-structure program CPMD.
--
-- A caller makes a session from a serialized parameter message and asks it for the energy and the
-- gradient of atoms, step after step. The session hands the message and a rendered input deck to
-- an embed layer in Fortran. Beside that, the library edits CPMD's binary RESTART files.
--
-- Base holds what the parts share: the library's names, lists and Boolean tests on native numbers,
-- results and options with `do`, C integers as bit patterns, counts of a number in a list, texts and
-- their comparison without case, the loop that copies into a buffer, the operations on reals.
--
-- Restart is src/cpmdc_restart.c. Bytes: `read_i32`, `read_f64`, `append_bytes`, `push_rec`.
-- Records: `parse_records`, its two loops one function each. Records/Write: `emit_record` and the
-- loop of `cpmdc_restart_write_mem`. Sections: `index_sections` and `rec_at`. File: `struct
-- cpmdc_restart`, `decode_typed`, `from_bytes`. Triples: the getters and setters of coordinates,
-- velocities and cell, and the expansion of species symbols. The children of these hold lemmas and
-- theorems.
--
-- Session is the part of src/cpmdc.c on `struct CPMDCSession`. Elements: `element_counts_match`.
-- Session itself: the stored result, the topology check and `session_energy_gradient_cell`.
-- Params: `cpmdc_session_create`, `cpmdc_session_set_params_ov`, `cpmdc_session_select_orbitals`.
-- Steps: sequences of calls on a session and its engine, with the configurations that
-- `configure_embed_from_session` makes. Topology and Ended: lemmas on one call. Matching: the copy
-- of a stored gradient.
--
-- Host is src/cpmdc_embed_host.c. Order: `cpmdc_species_order_map` and
-- `cpmdc_scatter_species_gradient`. Directory: `cpmdc_pseudopotential_directory`.
--
-- Adopt is src/cpmdc_adopt.c as built with MPI, and `cpmdc_adopt_calculator_comm` of src/cpmdc.c.
--
-- Cwd is src/cpmdc_memfd.c but for `cpmdc_memfd_write`: the working directory of the host.
--
-- Stop is src/cpmd_stop_intercept.c: the code of a stop during a call that is armed, which the
-- archive's `stopgm` reaches through the hook.
--
-- Deck is the part of src/cpmdc_params.c that appends text to the deck buffer, with the directives
-- that a caller sets for a section.
--
-- Evaluate is `energy_gradient_cell_with_params` and `rank_consensus` of src/cpmdc.c, with the
-- record of Stop. Group has what one rank of several does.
--
-- Step is `cpmdc_session_calculate_forces` and `cpmdc_session_calculate_result` of src/cpmdc.c, on
-- the operations of Force, Session and Potential, with
-- `cpmdc_potential_result_size_for_force_input` in Room. Forces, Refused and Room have the
-- theorems.
--
-- Force is the `ForceInput` message of src/cpmdc_params.c. Units: the names of units and the
-- factors of a result. Geometry: `cpmdc_force_input_atom_count`. Written:
-- `cpmdc_force_input_copy_geometry`.
--
-- Potential is `cpmdc_potential_result_write` of src/cpmdc_params.c. Select: which numbers of the
-- snapshots go into the message. Size: `cpmdc_potential_result_flat_size`. Write and Complete:
-- when a message is written, and what stands in it.
--
-- Overlay is the common method overlay of src/cpmdc.c. Token, Order, Names:
-- `cpmd_common_xc_token`. Overlay itself: `cpmd_common_to_params` and
-- `cpmd_merge_common_into_arm`, of which Lower and Merge have the theorems. Resolve and Install:
-- `cpmd_config_to_params_bytes`, the growing buffer of `cpmd_write_ptr_flat`,
-- `cpmdc_session_create_from_config`, on the operations of Session. Effective:
-- `cpmdc_params_effective_config_ov` of src/cpmdc_params.c.
--
-- Bytes and C integers are native numbers, and a negative `int` is its pattern below 2 ^ 32. A
-- `double` is its eight bytes in a file and a value of an abstract type elsewhere, with the
-- operations `Reals` of Base where the code calculates. What is not in these files is a parameter:
-- `malloc` and `realloc` as `grants`, the environment, the file system, MPI, the embed layer, the
-- Cap'n Proto library. The two loops of the record parser and the writer's loop run on fuel: the
-- length of the file and of the record, since a round takes eight bytes or a byte at least. The
-- loop that doubles a capacity has 64 rounds, since a size has 64 bits, and a written message has
-- the 8 or 16 attempts of the source. Null pointers that a caller passes are refused by the code and
-- are not values of the model.
--
-- Not modelled: the rendering of the sections of a deck in src/cpmdc_params.c and the buffer that
-- it is rendered into, the configuration
-- of the embed layer, the process-wide calls and the getters of results in src/cpmdc.c, which
-- write to the embed layer or copy fields, the capability and feature tables, the stub of a build
-- without CPMD, the Fortran sources, the command-line tools, the vendored Cap'n Proto library.
pub mod Adopt
pub mod Base
pub mod Cwd
pub mod Deck
pub mod Evaluate
pub mod Force
pub mod Host
pub mod Overlay
pub mod Potential
pub mod Restart
pub mod Session
pub mod Step
pub mod Stop
