-- ===== src/Tests.antt =====
-- Runs of the models on concrete inputs, and the theorems at inputs that meet their hypotheses.
pub mod ParserRuns
pub mod ParserWitnesses
pub mod StringWitnesses
pub mod GeneratorWitnesses
pub mod ShmVectorWitnesses
pub mod ThreadsWitnesses
pub mod MemoryWitnesses
pub mod VariantWitnesses
pub mod JsonWitnesses
pub mod ClientWitnesses
pub mod XmlWitnesses
pub mod ClientHandlerWitnesses
pub mod FilesystemWitnesses
pub mod ServerWitnesses
pub mod SystemRuns
